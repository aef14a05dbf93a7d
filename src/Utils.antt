-- ===== src/Utils.antt =====
-- internal/utils/utils.go: the list helpers that the registrar and the CORS handler call, and the
-- ETag of OFREP. Bytes are numbers below 256.
pub mod Laws
use configcat_proxy.Base.{
  Eq, if◌then◌else◌, contains, ℕ, ◌/◌, ◌%◌, ◌^◌, String, ◌<>◌, List, [], ◌∷◌,
}

-- The loop of `Except`: what of `a` is not in `b`, in order.
unfoldable pub except {ℓ} : {A : Type ℓ} ⦃e : Eq A⦄ → List A → List A → List A
except [] b = []
except (va ∷ a) b = let rest = except a b in if contains b va then rest else va ∷ rest

-- The loop of `DedupStringSlice`; `seen` are the keys of its map.
dedup_from {ℓ} : {A : Type ℓ} ⦃e : Eq A⦄ → List A → List A → List A
dedup_from seen [] = []
dedup_from seen (item ∷ strings) =
    if contains seen item then dedup_from seen strings else item ∷ dedup_from (item ∷ seen) strings

unfoldable pub dedup {ℓ} : {A : Type ℓ} ⦃e : Eq A⦄ → List A → List A
unfolding dedup_from
dedup strings = dedup_from [] strings

-- `Uint64ToBytes`: the lowest byte first.
pub uint64_to_bytes : ℕ → List ℕ
uint64_to_bytes val =
    val % 256
    ∷ val / 256 % 256
    ∷ val / 2 ^ 16 % 256
    ∷ val / 2 ^ 24 % 256
    ∷ val / 2 ^ 32 % 256
    ∷ val / 2 ^ 40 % 256
    ∷ val / 2 ^ 48 % 256
    ∷ val / 2 ^ 56 % 256
    ∷ []

-- `GenerateEtag`; `fast_hash_hex` is the digest of `FastHashHex`.
unfoldable pub generate_etag : (List ℕ → String) → List ℕ → String
generate_etag fast_hash_hex b = "W/" <> ("\"" <> (fast_hash_hex b <> "\""))
