-- ===== src/Bip110/Prevout.antt =====
-- src/bip110/prevout.rs: what is known of the outputs that a transaction spends.
use mempool_atlas.Prelude.{ℕ, Option, List, Bytes, length, get_elem?, ◌>>=◌}

pub record PrevoutFacts : Type 0 where
  pub script_pubkey : Bytes
  pub creation_height : Option ℕ

-- One entry for each input, by position; an entry may be absent.
pub record PrevoutSet : Type 0 where
  pub facts : List (Option PrevoutFacts)

unfoldable pub get : PrevoutSet → ℕ → Option PrevoutFacts
get set index = get_elem? set.facts index >>= λ f. f

unfoldable pub len : PrevoutSet → ℕ
len set = length set.facts
