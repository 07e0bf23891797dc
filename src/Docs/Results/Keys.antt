-- ===== src/Docs/Results/Keys.antt =====
-- `SearchResults.ProcessKeys` of html/search/search.js: which key events act. A browser sends one
-- keydown, a keypress for each repetition, and a keyup.
use database_system_swe.Base.{
  ℕ, zero, suc, Bool, true, false, not, List, [], ◌∷◌, ◌++◌, ◌≡◌, ◌≢◌, refl, arith, if◌then◌else◌,
  nat_beq,
}
use database_system_swe.Docs.Results.Search.{SearchResults}

pub data EventType : Type 0 where
  keydown keypress keyup other : EventType

pub record KeyEvent : Type 0 where
  pub type : EventType
  pub key_code : ℕ

abbrev pub key_event : EventType → ℕ → KeyEvent
key_event ty k = record { type = ty; key_code = k }

-- The new state, and whether the first keypress after a keydown is being ignored.
abbrev pub note_key : SearchResults → EventType → ℕ → SearchResults × Bool
note_key s keydown k = (record s { repeat_on = false; last_key = k }, false)
note_key s keypress k =
    if not s.repeat_on
    then (if not (nat_beq s.last_key 0) then record s { repeat_on = true } else s, true)
    else (s, false)
note_key s keyup k = (record s { last_key = 0; repeat_on = false }, false)
note_key s other k = (s, false)

unfoldable pub process_keys : SearchResults → KeyEvent → SearchResults × Bool
process_keys s e =
    let noted = note_key s e.type e.key_code in
    (noted.0, if noted.1 then false else not (nat_beq noted.0.last_key 0))

-- The answers to a list of events, in order.
unfoldable pub answers : SearchResults → List KeyEvent → List Bool
answers s [] = []
answers s (e ∷ events) = let r = process_keys s e in r.1 ∷ answers r.0 events

-- `n` repetitions of a key.
abbrev pub presses : ℕ → ℕ → List KeyEvent
presses zero k = []
presses (suc n) k = key_event keypress k ∷ presses n k

abbrev pub all_true : ℕ → List Bool
all_true zero = []
all_true (suc n) = true ∷ all_true n

answers-presses :
    (s : SearchResults) (n k : ℕ)
    → s.repeat_on ≡ true
    → s.last_key ≢ 0
    → answers s (presses n k ++ key_event keyup k ∷ []) ≡ all_true n ++ false ∷ []
unfolding answers process_keys
answers-presses s zero k on held = ground arith
answers-presses s (suc n) k on held = ground (arith, answers-presses s n k on held)

-- From any state, a key other than 0 that is pressed, repeats at least once, and is released acts
-- on the keydown, not on the first keypress, on each keypress after that, and not on the keyup.
pub answers-hold :
    (s : SearchResults) (n k : ℕ)
    → k ≢ 0
    → answers s (key_event keydown k ∷ presses (suc n) k ++ key_event keyup k ∷ [])
      ≡ true ∷ false ∷ all_true n ++ false ∷ []
unfolding answers process_keys
answers-hold s n k d =
    ground (arith, answers-presses (record s { repeat_on = true; last_key = k }) n k refl d)
