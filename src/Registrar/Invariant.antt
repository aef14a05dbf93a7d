-- ===== src/Registrar/Invariant.antt =====
-- The registered clients are exactly the open ones, each under its own id, and every step of the
-- registrar keeps it so.
use configcat_proxy.Base.{
  ◌==◌, nat_eq, if◌then◌else◌, Bool-cases, Option-cases, ℕ, suc, ◌≤◌, ◌<◌, String, ◌≡◌, sym, ◌∙◌,
  inl, inr, false, Option, none, some, arith, eq_iff, string_eq,
}
use configcat_proxy.Registrar.{ClientObject, close, change}
use configcat_proxy.Base.Dict.{Dict, lookup, insert, delete, lookup-insert, lookup-delete}

-- The registrar's maps and its heap of clients: a registered client is on the heap, open, and has
-- its id; an open client is registered; and handles from `next` on are free.
pub record IsConsistent (clients : Dict String ℕ) (heap : Dict ℕ ClientObject) (next : ℕ)
    : Type 0 where
  pub registered :
      (id : String) (h : ℕ)
      → lookup id clients ≡ some h
      → (c : ClientObject) × (lookup h heap ≡ some c) × (c.sdk_id ≡ id) × (c.closed ≡ false)
  pub open_registered :
      (h : ℕ) (c : ClientObject)
      → lookup h heap ≡ some c
      → c.closed ≡ false
      → lookup c.sdk_id clients ≡ some h
  pub free : (h : ℕ) → next ≤ h → lookup h heap ≡ none

abbrev pub apply_to : (ClientObject → ClientObject) → Option ClientObject → Option ClientObject
apply_to f none = none
apply_to f (some c) = some (f c)

pub lookup-change :
    (f : ClientObject → ClientObject) (k h : ℕ) (heap : Dict ℕ ClientObject)
    → lookup h (change f k heap) ≡ (if k == h then apply_to f (lookup h heap) else lookup h heap)
unfolding change
lookup-change f k h heap = elim (Option-cases (lookup k heap)) [
  | inl e ↦ ground (arith, nat_eq.beq_iff k h)
  | inr (c, e) ↦ ground (arith, nat_eq.beq_iff k h, lookup-insert k h (f c) heap)
]

-- Only what the maps hold matters, not how.
pub same-IsConsistent :
    {clients clients' : Dict String ℕ} {heap heap' : Dict ℕ ClientObject} {next : ℕ}
    → ((id : String) → lookup id clients' ≡ lookup id clients)
    → ((h : ℕ) → lookup h heap' ≡ lookup h heap)
    → IsConsistent clients heap next
    → IsConsistent clients' heap' next
same-IsConsistent {heap} {heap'} p q v = record {
  registered = λ id h e.
      let (c, at, named, opened) = v.registered id h (sym (p id) ∙ e) in
      (c, q h ∙ at, named, opened);
  open_registered = λ h c e o. p c.sdk_id ∙ v.open_registered h c (sym (q h) ∙ e) o;
  free = λ h le. q h ∙ v.free h le;
}

module _ {clients : Dict String ℕ} {heap : Dict ℕ ClientObject} {next : ℕ}
    (v : IsConsistent clients heap next) where
  -- A registered handle was allocated.
  pub registered-lt : (id : String) (h : ℕ) → lookup id clients ≡ some h → h < next
  registered-lt id h e = let (c, at, _, _) = v.registered id h e in ground (arith, v.free h)

  -- Two ids never share a client.
  pub registered_inj :
      (id id' : String) (h : ℕ)
      → lookup id clients ≡ some h
      → lookup id' clients ≡ some h
      → id ≡ id'
  registered_inj id id' h e e' =
      let (c, at, same, _) = v.registered id h e in
      let (c', at', same', _) = v.registered id' h e' in ground arith

  -- Registering a new client under a free id.
  module _ (c : ClientObject) (absent : lookup c.sdk_id clients ≡ none) where
    added_registered :
        (id : String) (h : ℕ)
        → c.closed ≡ false
        → lookup id (insert c.sdk_id next clients) ≡ some h
        → (d : ClientObject) × (lookup h (insert next c heap) ≡ some d)
          × (d.sdk_id ≡ id)
          × (d.closed ≡ false)
    added_registered id h opened e = elim (Bool-cases (c.sdk_id == id)) [
      | inl same ↦
          let h_new : next ≡ h = ground (arith, lookup-insert c.sdk_id id next clients) in
          (c, ground (arith, lookup-insert next h c heap), (eq_iff c.sdk_id id).0 same, opened)
      | inr other ↦
          let old : lookup id clients ≡ some h =
            ground (arith, lookup-insert c.sdk_id id next clients) in
          let (d, at, named, open_d) = v.registered id h old in
          (d, ground (arith, lookup-insert next h c heap, v.free next), named, open_d)
    ]

    added_open :
        (h : ℕ) (d : ClientObject)
        → lookup h (insert next c heap) ≡ some d
        → d.closed ≡ false
        → lookup d.sdk_id (insert c.sdk_id next clients) ≡ some h
    added_open h d e open_d = ground (
      arith,
      lookup-insert next h c heap,
      lookup-insert c.sdk_id d.sdk_id next clients,
      eq_iff c.sdk_id d.sdk_id,
      v.open_registered h d,
    )

    pub add-IsConsistent :
        c.closed ≡ false
        → IsConsistent (insert c.sdk_id next clients) (insert next c heap) (suc next)
    add-IsConsistent opened = record {
      registered = λ id h e. added_registered id h opened e;
      open_registered = added_open;
      free = λ h le. ground (arith, v.free h, lookup-insert next h c heap);
    }

  -- Changing a client in place, but for its id and for being open.
  pub change-IsConsistent :
      (f : ClientObject → ClientObject) (k : ℕ)
      → ((c : ClientObject) → ((f c).sdk_id ≡ c.sdk_id) × ((f c).closed ≡ c.closed))
      → IsConsistent clients (change f k heap) next
  change-IsConsistent f k keeps = record {
    registered = λ id h e.
        let (c, at, named, opened) = v.registered id h e in
        (
          if k == h then f c else c,
          ground (arith, lookup-change f k h heap),
          ground (arith, keeps c),
          ground (arith, keeps c),
        );
    open_registered = λ h d e o. elim (Option-cases (lookup h heap)) [
      | inl gone ↦ ground (arith, lookup-change f k h heap)
      | inr (c, at) ↦
          ground
            (arith, lookup-change f k h heap, keeps c, v.open_registered h c, nat_eq.beq_iff k h)
    ];
    free = λ h le. ground (arith, v.free h, lookup-change f k h heap);
  }

  -- Deleting a registered client and closing it.
  pub delete-IsConsistent :
      (id : String) (k : ℕ)
      → lookup id clients ≡ some k
      → IsConsistent (delete id clients) (change close k heap) next
  delete-IsConsistent id k e = record {
    registered = λ id' h e'.
        let old : lookup id' clients ≡ some h = ground (arith, lookup-delete id id' clients) in
        let (c, at, named, opened) = v.registered id' h old in
        (
          c,
          ground (
            arith,
            lookup-change close k h heap,
            registered_inj id id' h,
            lookup-delete id id' clients,
            eq_iff id id',
          ),
          named,
          opened,
        );
    open_registered = λ h d e' o. ground (
      arith,
      lookup-change close k h heap,
      v.open_registered h d,
      lookup-delete id d.sdk_id clients,
      eq_iff id d.sdk_id,
    );
    free = λ h le. ground (arith, v.free h, lookup-change close k h heap);
  }

-- Putting a new client in the place of a registered one, which is closed.
pub replace-IsConsistent :
    {clients : Dict String ℕ} {heap : Dict ℕ ClientObject} {next : ℕ}
    → IsConsistent clients heap next
    → (c : ClientObject) (k : ℕ) → lookup c.sdk_id clients ≡ some k
    → c.closed ≡ false
    → IsConsistent (insert c.sdk_id next clients) (change close k (insert next c heap)) (suc next)
replace-IsConsistent {clients} {heap} {next} v c k e opened =
    let w = delete-IsConsistent v c.sdk_id k e in
    let absent : lookup c.sdk_id (delete c.sdk_id clients) ≡ none =
      ground (arith, lookup-delete c.sdk_id c.sdk_id clients, eq_iff c.sdk_id c.sdk_id) in
    same-IsConsistent
      (λ id. ground (
        arith,
        lookup-insert c.sdk_id id next clients,
        lookup-insert c.sdk_id id next (delete c.sdk_id clients),
        lookup-delete c.sdk_id id clients,
      ))
      (λ h. ground (
        arith,
        lookup-change close k h (insert next c heap),
        lookup-insert next h c heap,
        lookup-insert next h c (change close k heap),
        lookup-change close k h heap,
        registered-lt v c.sdk_id k e,
        nat_eq.beq_iff next h,
        nat_eq.beq_iff k h,
      ))
      (add-IsConsistent w c absent opened)
