-- ===== src/Sdk/Clients/Laws.antt =====
-- How often a client notifies its subscribers.
use configcat_proxy.Base.{
  if◌then◌else◌, ℕ, zero, suc, ◌+◌, ◌-◌, ◌≡◌, Bool, true, false, ◌||◌, arith, string_eq,
}
use configcat_proxy.Sdk.Clients.{Signals, signal, signals}

abbrev pub fresh : Signals
fresh = record { initialized = false; refreshes = 0; published = 0 }

published-signals :
    (offline : Bool) (n : ℕ) (s : Signals)
    → (offline || s.initialized) ≡ true
    → ((signals offline n s).published ≡ s.published + n)
      × ((signals offline n s).refreshes ≡ s.refreshes + (if offline then n else 0))
unfolding signals signal
published-signals offline zero s h = ground arith
published-signals offline (suc n) s h =
    ground (arith, published-signals offline n (signal offline s))

-- Of `n` changes of the configuration, an online client reports all but the first to its
-- subscribers, and an offline one reports every one, after a refresh each.
pub published-signals-fresh :
    (offline : Bool) (n : ℕ)
    → ((signals offline n fresh).published ≡ (if offline then n else n - 1))
      × ((signals offline n fresh).refreshes ≡ (if offline then n else 0))
unfolding signals signal
published-signals-fresh true n = ground (arith, published-signals true n fresh)
published-signals-fresh false zero = ground arith
published-signals-fresh false (suc n) =
    ground (arith, published-signals false n (record fresh { initialized = true }))
