-- ===== src/Reconciliation/Sizes.antt =====
-- The bytes of an inventory's pages are no more than those of its states, each as a page of its own.
use html_inbox.Common.{ℕ, ◌+◌, ◌≤◌, ◌≡◌, arith, List, [], ◌∷◌, ◌++◌, map, Text}
use html_inbox.Json.{items, stringify, stringify_items, byte_length}
use html_inbox.Model.{OriginState}
use html_inbox.Ledger.Encode.{of_state}
use html_inbox.Server.Sessions.{states_size}

byte_length-append : (s t : Text) → byte_length (s ++ t) ≡ byte_length s + byte_length t
unfolding byte_length
byte_length-append [] t = omega arith
byte_length-append (c ∷ s) t = ground (arith, byte_length-append s t)

-- The bytes of the states, each with brackets of its own.
abbrev pub total_size : List OriginState → ℕ
total_size [] = 0
total_size (state ∷ states) = 2 + byte_length (stringify (of_state state)) + total_size states

pub total_size-append :
    (xs ys : List OriginState) → total_size (xs ++ ys) ≡ total_size xs + total_size ys
total_size-append [] ys = omega arith
total_size-append (x ∷ xs) ys = ground (arith, total_size-append xs ys)

rest_size :
    (states : List OriginState)
    → byte_length (stringify_items (items (map of_state states))) ≤ 1 + total_size states
unfolding stringify byte_length
rest_size [] = omega arith
rest_size (state ∷ states) = ground (
  arith,
  rest_size states,
  byte_length-append (stringify (of_state state)) (stringify_items (items (map of_state states))),
)

pub states_size-total_size :
    (states : List OriginState) → states_size states ≤ 2 + total_size states
unfolding states_size stringify byte_length
states_size-total_size [] = omega arith
states_size-total_size (state ∷ states) = ground (
  arith,
  rest_size states,
  byte_length-append (stringify (of_state state)) (stringify_items (items (map of_state states))),
)

pub states_size-cons :
    (state : OriginState) (states : List OriginState)
    → states_size (state ∷ states) ≤ total_size (state ∷ states)
unfolding states_size stringify byte_length
states_size-cons state states = ground (
  arith,
  rest_size states,
  byte_length-append (stringify (of_state state)) (stringify_items (items (map of_state states))),
)
