-- ===== src/Web/Hash.antt =====
-- sum64 and getTargets of web/api/v1/api.go: the share of the servers that a target falls to. `md5` is
-- md5.Sum, with its 16 bytes as numbers.
pub mod Laws
use Prim.Native.Nat.{bit_or}
use promeproxy.Common.{string_eq, ℕ, ◌+◌, ◌-◌, ◌*◌, ◌%◌, ◌^◌, String, List, [], ◌∷◌, get_or, lookup}
use promeproxy.Model.{LabelSet}

-- the loop of sum64 from index `i` on; a shift drops the bits above the 64th
unfoldable pub sum64_loop : ℕ → ℕ → List ℕ → ℕ
sum64_loop i s [] = s
sum64_loop i s (b ∷ bs) = sum64_loop (i + 1) (bit_or s (b * 2 ^ ((16 - i - 1) * 8) % 2 ^ 64)) bs

-- sum64
unfoldable pub sum64 : List ℕ → ℕ
unfolding sum64_loop
sum64 hash = sum64_loop 0 0 hash

-- rawTarget
pub record RawTarget : Type 0 where
  pub remainder : ℕ
  pub labels : LabelSet
  pub address : String

-- getTargets, for targets with their public and their discovered labels
unfoldable pub get_targets : (String → List ℕ) → List (LabelSet × LabelSet) → List RawTarget
unfolding sum64
get_targets md5 [] = []
get_targets md5 ((labels, discovered) ∷ ts) =
    record {
      remainder = sum64 (md5 (get_or (lookup "instance" labels) "")) % 3;
      labels = labels;
      address = get_or (lookup "__address__" discovered) "";
    }
    ∷ get_targets md5 ts
