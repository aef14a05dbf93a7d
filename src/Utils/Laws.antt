-- ===== src/Utils/Laws.antt =====
-- What `Except` and `DedupStringSlice` of internal/utils/utils.go return.
use configcat_proxy.Base.{
  Eq, ◌==◌, Bool-cases, contains, ◌≡◌, refl, inl, inr, false, not, ◌&&◌, ◌||◌, List, [], ◌∷◌, ◌++◌,
  arith,
}
use configcat_proxy.Utils.{except, dedup_from, dedup}

module _ {ℓ} {A : Type ℓ} ⦃e : Eq A⦄ where
  -- `Except` lists exactly what the first list has and the second one lacks.
  pub contains-except :
      (a b : List A) (x : A) → contains (except a b) x ≡ (contains a x && not (contains b x))
  unfolding except contains
  contains-except [] b x = refl
  contains-except (y ∷ a) b x = elim (Bool-cases (x == y)) [
    | inl same ↦ ground (arith, (e.beq_iff x y).0 same, contains-except a b x, (e.beq_iff x y).1)
    | inr other ↦ ground (arith, contains-except a b x)
  ]

  pub contains-append :
      (a b : List A) (x : A) → contains (a ++ b) x ≡ (contains a x || contains b x)
  unfolding contains
  contains-append [] b x = refl
  contains-append (y ∷ a) b x = ground (arith, contains-append a b x)

  contains-dedup_from :
      (seen a : List A) (x : A)
      → contains (dedup_from seen a) x ≡ (contains a x && not (contains seen x))
  unfolding dedup_from contains
  contains-dedup_from seen [] x = refl
  contains-dedup_from seen (y ∷ a) x = elim (Bool-cases (x == y)) [
    | inl same ↦ ground (
      arith,
      (e.beq_iff x y).0 same,
      contains-dedup_from seen a x,
      contains-dedup_from (y ∷ seen) a x,
      (e.beq_iff x y).1,
    )
    | inr other ↦ ground (arith, contains-dedup_from seen a x, contains-dedup_from (y ∷ seen) a x)
  ]

  pub contains-dedup : (a : List A) (x : A) → contains (dedup a) x ≡ contains a x
  unfolding dedup contains
  contains-dedup a x = ground (arith, contains-dedup_from [] a x)

  -- No element stands twice.
  abbrev pub IsDistinct : List A → Type 0
  IsDistinct [] = Unit
  IsDistinct (x ∷ a) = (contains a x ≡ false) × IsDistinct a

  dedup_from-IsDistinct : (seen a : List A) → IsDistinct (dedup_from seen a)
  unfolding dedup_from contains
  dedup_from-IsDistinct seen [] = tt
  dedup_from-IsDistinct seen (y ∷ a) = elim (Bool-cases (contains seen y)) [
    | inl old ↦ rw old (dedup_from-IsDistinct seen a)
    | inr new ↦ rw new (
      ground (arith, contains-dedup_from (y ∷ seen) a y, (e.beq_iff y y).1 refl),
      dedup_from-IsDistinct (y ∷ seen) a,
    )
  ]

  pub dedup-IsDistinct : (a : List A) → IsDistinct (dedup a)
  unfolding dedup
  dedup-IsDistinct a = dedup_from-IsDistinct [] a
