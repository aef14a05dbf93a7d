-- ===== src/Stream/Server/Laws.antt =====
-- What one round of the server does to its maps.
use configcat_proxy.Base.{
  nat_eq, ◌==◌, if◌then◌else◌, Bool-cases, Option-cases, ℕ, ◌≤◌, ◌<◌, String, ◌≡◌, refl, inl, inr,
  false, Option, none, some, [], ◌∷◌, arith, eq_iff, string_eq,
}
use configcat_proxy.Base.Dict.{Dict, lookup, insert, lookup-insert, lookup-delete}
use configcat_proxy.Registrar.Index.{is_key_of, lookup-drop_keys}
use configcat_proxy.Stream.Server.{
  StreamObject, Server, new_stream_object, unsubscribe, reset_sdk, close_stream, change_stream,
  stream_keys, store_keys, open_stream, move_stream, remove_stream, handle_sdk_id,
}
use configcat_proxy.Registrar.{ClientObject, AutoRegistrar, sdk_keys, drop_keys}

-- Each registered stream is on the heap and open, has its id, and is subscribed to its client
-- alone; and no other stream is open.
pub record IsServing (s : Server) : Type 0 where
  pub registered :
      (id : String) (k : ℕ)
      → lookup id s.streams ≡ some k
      → (o : StreamObject) × (lookup k s.objects ≡ some o)
        × (o.sdk_id ≡ id)
        × (o.stopped ≡ false)
        × (o.subscriptions ≡ o.sdk_client ∷ [])
  pub open_ones :
      (k : ℕ) (o : StreamObject)
      → lookup k s.objects ≡ some o
      → o.stopped ≡ false
      → lookup o.sdk_id s.streams ≡ some k
  pub free : (k : ℕ) → s.next ≤ k → lookup k s.objects ≡ none

abbrev pub client_in : Option StreamObject → Option ℕ
client_in none = none
client_in (some o) = some o.sdk_client

-- The client of the stream that `GetStreamOrNil` returns.
abbrev pub stream_client : Server → String → Option ℕ
stream_client s id = elim (lookup id s.streams) [
  | none ↦ none
  | some k ↦ client_in (lookup k s.objects)
]

abbrev apply_stream : (StreamObject → StreamObject) → Option StreamObject → Option StreamObject
apply_stream f none = none
apply_stream f (some o) = some (f o)

lookup-change_stream :
    (f : StreamObject → StreamObject) (k h : ℕ) (objects : Dict ℕ StreamObject)
    → lookup h (change_stream f k objects)
      ≡ (if k == h then apply_stream f (lookup h objects) else lookup h objects)
unfolding change_stream
lookup-change_stream f k h objects = elim (Option-cases (lookup k objects)) [
  | inl e ↦ ground (arith, nat_eq.beq_iff k h)
  | inr (o, e) ↦ ground (arith, nat_eq.beq_iff k h, lookup-insert k h (f o) objects)
]

lookup-store_keys :
    (mine : String × Option String) (str : ℕ) (k : String) (m : Dict String ℕ)
    → lookup k (store_keys mine str m) ≡ (if is_key_of mine k then some str else lookup k m)
unfolding store_keys
lookup-store_keys (key1, none) str k m =
    ground (arith, lookup-insert key1 k str m, eq_iff key1 "", eq_iff key1 k, eq_iff k "")
lookup-store_keys (key1, some key2) str k m = ground (
  arith,
  lookup-insert key1 k str m,
  lookup-insert key2 k str m,
  lookup-insert key2 k str (insert key1 str m),
  eq_iff key1 "",
  eq_iff key2 "",
  eq_iff key1 k,
  eq_iff key2 k,
  eq_iff k "",
)

stream_lt :
    (s : Server) → IsServing s → (id : String) (k : ℕ) → lookup id s.streams ≡ some k → k < s.next
stream_lt s v id k e = let (o, at, _, _, _) = v.registered id k e in ground (arith, v.free k)

stream_inj :
    (s : Server)
    → IsServing s
    → (id id' : String) (k : ℕ) → lookup id s.streams ≡ some k
    → lookup id' s.streams ≡ some k
    → id ≡ id'
stream_inj s v id id' k e e' =
    let (o, at, named, _, _) = v.registered id k e in
    let (o', at', named', _, _) = v.registered id' k e' in ground arith

module _ (clients : Dict ℕ ClientObject) (s : Server) (v : IsServing s) (id : String) where
  pub open_stream-IsServing :
      (h : ℕ) → lookup id s.streams ≡ none → IsServing (open_stream clients id h s)
  unfolding open_stream
  open_stream-IsServing h absent = record {
    registered = λ j k e. elim (Bool-cases (id == j)) [
      | inl same ↦ (
        new_stream_object id h,
        ground (
          arith,
          lookup-insert id j s.next s.streams,
          lookup-insert s.next k (new_stream_object id h) s.objects,
        ),
        (eq_iff id j).0 same,
        refl,
        refl,
      )
      | inr other ↦
          let old : lookup j s.streams ≡ some k =
            ground (arith, lookup-insert id j s.next s.streams) in
          let (o, at, named, live, mine) = v.registered j k old in
          (
            o,
            ground
                (arith, lookup-insert s.next k (new_stream_object id h) s.objects, v.free s.next),
            named,
            live,
            mine,
          )
    ];
    open_ones = λ k o at live. ground (
      arith,
      lookup-insert s.next k (new_stream_object id h) s.objects,
      lookup-insert id o.sdk_id s.next s.streams,
      v.open_ones k o,
      eq_iff id o.sdk_id,
      eq_iff id id,
      nat_eq.beq_iff s.next k,
      lookup-insert id id s.next s.streams,
    );
    free =
        λ k le. ground (arith, v.free k, lookup-insert s.next k (new_stream_object id h) s.objects);
  }

  pub stream_client-open :
      (h : ℕ) (j : String)
      → lookup id s.streams ≡ none
      → stream_client (open_stream clients id h s) j
        ≡ (if id == j then some h else stream_client s j)
  unfolding open_stream
  stream_client-open h j absent = elim (Option-cases (lookup j s.streams)) [
    | inl gone ↦ ground (
      arith,
      lookup-insert id j s.next s.streams,
      lookup-insert s.next s.next (new_stream_object id h) s.objects,
    )
    | inr (k, e) ↦ ground (
      arith,
      lookup-insert id j s.next s.streams,
      lookup-insert s.next s.next (new_stream_object id h) s.objects,
      lookup-insert s.next k (new_stream_object id h) s.objects,
      stream_lt s v j k e,
    )
  ]

  module _ (str : ℕ) (there : lookup id s.streams ≡ some str) where
    move_stream-IsServing : (h : ℕ) → IsServing (move_stream clients id h str s)
    unfolding move_stream reset_sdk unsubscribe
    move_stream-IsServing h = record {
      registered = λ j k e.
          let (o, at, named, live, mine) = v.registered j k e in
          (
            if str == k then reset_sdk h o else o,
            ground (arith, lookup-change_stream (reset_sdk h) str k s.objects),
            ground (arith, live),
            ground (arith, live),
            ground (arith, live, mine, nat_eq.beq_iff o.sdk_client o.sdk_client),
          );
      open_ones = λ k o at live. elim (Option-cases (lookup k s.objects)) [
        | inl missing ↦
            absurd (ground (arith, at, missing, lookup-change_stream (reset_sdk h) str k s.objects))
        | inr (old, e) ↦ ground (
          arith,
          at,
          e,
          live,
          lookup-change_stream (reset_sdk h) str k s.objects,
          v.open_ones k old e,
        )
      ];
      free = λ k le. ground (arith, v.free k, lookup-change_stream (reset_sdk h) str k s.objects);
    }

    stream_client-move :
        (h : ℕ) (j : String)
        → stream_client (move_stream clients id h str s) j
          ≡ (if id == j then some h else stream_client s j)
    unfolding move_stream reset_sdk
    stream_client-move h j =
        let (o, at, named, live, mine) = v.registered id str there in
        elim (Option-cases (lookup j s.streams)) [
          | inl gone ↦ ground (arith, eq_iff id j)
          | inr (k, e) ↦ ground (
            arith,
            lookup-change_stream (reset_sdk h) str k s.objects,
            stream_inj s v id j k,
            eq_iff id j,
            nat_eq.beq_iff str k,
          )
        ]

    remove_stream-IsServing : IsServing (remove_stream clients id str s)
    unfolding remove_stream close_stream
    remove_stream-IsServing = record {
      registered = λ j k e.
          let old : lookup j s.streams ≡ some k = ground (arith, lookup-delete id j s.streams) in
          let (o, at, named, live, mine) = v.registered j k old in
          (
            o,
            ground (
              arith,
              lookup-change_stream close_stream str k s.objects,
              lookup-delete id j s.streams,
              stream_inj s v id j k,
              eq_iff id j,
              nat_eq.beq_iff str k,
            ),
            named,
            live,
            mine,
          );
      open_ones = λ k o at live. elim (Option-cases (lookup k s.objects)) [
        | inl missing ↦
            absurd (ground (arith, at, missing, lookup-change_stream close_stream str k s.objects))
        | inr (old, e) ↦ ground (
          arith,
          at,
          e,
          live,
          there,
          lookup-change_stream close_stream str k s.objects,
          v.open_ones k old e,
          lookup-delete id old.sdk_id s.streams,
          eq_iff id old.sdk_id,
          nat_eq.beq_iff str k,
        )
      ];
      free = λ k le. ground (arith, v.free k, lookup-change_stream close_stream str k s.objects);
    }

    stream_client-remove :
        (j : String)
        → stream_client (remove_stream clients id str s) j
          ≡ (if id == j then none else stream_client s j)
    unfolding remove_stream
    stream_client-remove j = elim (Option-cases (lookup j s.streams)) [
      | inl gone ↦ ground (arith, lookup-delete id j s.streams)
      | inr (k, e) ↦ ground (
        arith,
        lookup-delete id j s.streams,
        lookup-change_stream close_stream str k s.objects,
        stream_inj s v id j k,
        eq_iff id j,
        nat_eq.beq_iff str k,
      )
    ]

module _ (r : AutoRegistrar) (s : Server) (v : IsServing s) (id : String) where
  -- Whatever id comes in, the server keeps one open stream for each registered id, which is
  -- subscribed to the client it reads and to no other; and every stream that is open is registered,
  -- so a stream that is taken out of the map is closed.
  pub handle_sdk_id-IsServing : IsServing (handle_sdk_id r id s)
  unfolding handle_sdk_id
  handle_sdk_id-IsServing = elim (Option-cases (lookup id r.sdk_clients)) [
    | inl gone ↦ elim (Option-cases (lookup id s.streams)) [
      | inl absent ↦ rw (gone, absent, handle_sdk_id) v
      | inr (str, e) ↦ rw (gone, e, handle_sdk_id) (remove_stream-IsServing r.heap s v id str e)
    ]
    | inr (h, at) ↦ elim (Option-cases (lookup id s.streams)) [
      | inl absent ↦ rw (at, absent, handle_sdk_id) (open_stream-IsServing r.heap s v id h absent)
      | inr (str, e) ↦ rw (at, e, handle_sdk_id) (move_stream-IsServing r.heap s v id str e h)
    ]
  ]

  -- Handling an id gives it a stream exactly when the registrar has a client for it, on that
  -- client, and leaves the streams of the other ids as they are.
  pub stream_client-handle_sdk_id :
      (j : String)
      → stream_client (handle_sdk_id r id s) j
        ≡ (if id == j then lookup id r.sdk_clients else stream_client s j)
  unfolding handle_sdk_id
  stream_client-handle_sdk_id j = elim (Option-cases (lookup id r.sdk_clients)) [
    | inl gone ↦ elim (Option-cases (lookup id s.streams)) [
      | inl absent ↦ ground (arith, eq_iff id j)
      | inr (str, e) ↦ rw (gone, e, handle_sdk_id) (stream_client-remove r.heap s v id str e j)
    ]
    | inr (h, at) ↦ elim (Option-cases (lookup id s.streams)) [
      | inl absent ↦ rw (at, absent, handle_sdk_id) (stream_client-open r.heap s v id h j absent)
      | inr (str, e) ↦ rw (at, e, handle_sdk_id) (stream_client-move r.heap s v id str e h j)
    ]
  ]

  -- Handling an id whose stream exists replaces, in the map by SDK key, the keys of the client that
  -- the stream had (as they are now) by those of the client it gets; every other key keeps its
  -- entry.
  pub lookup-handle_sdk_id :
      (h str : ℕ) (k : String)
      → lookup id r.sdk_clients ≡ some h
      → lookup id s.streams ≡ some str
      → lookup k (handle_sdk_id r id s).streams_by_sdk_key ≡ (
          if is_key_of (sdk_keys r.heap h) k
          then some str
          else if is_key_of (stream_keys r.heap s.objects str) k
          then none
          else lookup k s.streams_by_sdk_key)
  unfolding handle_sdk_id move_stream
  lookup-handle_sdk_id h str k at e = ground (
    arith,
    lookup-store_keys (sdk_keys r.heap h) str k
        (drop_keys (stream_keys r.heap s.objects str) s.streams_by_sdk_key),
    lookup-drop_keys (stream_keys r.heap s.objects str) k s.streams_by_sdk_key,
  )
