-- ===== src/EventLog/Calls.antt =====
-- Calls of a store one after the other, each with what the file system answers to it.
use microtak_server.Prelude.{List, [], ◌∷◌}
use microtak_server.EventLog.{Write}
use microtak_server.EventLog.Replay.{IsClean}

-- What is asked of every call of a list, and of the answers to it.
abbrev pub Every : {C W : Type 0} → (C → W → Type 0) → List (C × W) → Type 0
Every Q [] = Unit
Every Q ((c, w) ∷ rest) = Q c w × Every Q rest

pub always : {C W : Type 0} (calls : List (C × W)) → Every (λ c w. Unit {0}) calls
always [] = tt
always ((c, w) ∷ rest) = (tt, always rest)

module _ {C : Type 0} where
  -- The append of every call is clean.
  abbrev pub AllClean : List (C × Write) → Type 0
  AllClean calls = Every (λ c w. IsClean w) calls

module _ {C W S : Type 0} (run : C → W → S → S) where
  unfoldable pub run_all : List (C × W) → S → S
  run_all [] s = s
  run_all ((c, w) ∷ rest) s = run_all rest (run c w s)

  pub run_all-keeps :
      (P : S → Type 0) (Q : C → W → Type 0)
      → ((c : C) (w : W) (s : S) → Q c w → P s → P (run c w s))
      → (calls : List (C × W)) (s : S) → Every Q calls
      → P s
      → P (run_all calls s)
  unfolding run_all
  run_all-keeps P Q step [] s h p = p
  run_all-keeps P Q step ((c, w) ∷ rest) s (h, hs) p =
      run_all-keeps P Q step rest (run c w s) hs (step c w s h p)
