-- ===== src/Metering/Rating/Order.antt =====
-- The order in which the lines of an invoice are emitted.
use python_backend_manager.Prelude.Base.{
  ℕ, String, ◌≡◌, true, Option, none, some, List, [], ◌∷◌, arith, All,
}
use python_backend_manager.Prelude.Dict.{Dict}
use python_backend_manager.Prelude.Text.{text_leb, text_leb_total, text_leb_trans}
use python_backend_manager.Metering.RateCards.{MeterRate, RateCard, default_rate_cards}
use python_backend_manager.Metering.Rating.{
  RatedLine, insert_item, sorted_items, base_lines, overage_line, overage_lines, card_lines,
  resolve_card, rate,
}

-- The meter of a line, if it has one, comes before a text.
abbrev Before : Option String → Option String → Type 0
Before none _ = Unit
Before (some a) none = ⊥
Before (some a) (some b) = text_leb a b ≡ true

-- Every line stands before all that follow it; a flat line has no meter and comes first.
abbrev pub IsOrdered : List RatedLine → Type 0
IsOrdered [] = Unit
IsOrdered (line ∷ lines) = All (λ next. Before line.meter next.meter) lines × IsOrdered lines

abbrev AllAfter : String → List (String × MeterRate) → Type 0
AllAfter meter items = All (λ x. text_leb meter x.0 ≡ true) items

-- Items in the order of their keys.
abbrev IsSorted : List (String × MeterRate) → Type 0
IsSorted [] = Unit
IsSorted (x ∷ xs) = AllAfter x.0 xs × IsSorted xs

AllAfter-trans :
    (a b : String) (items : List (String × MeterRate))
    → text_leb a b ≡ true
    → AllAfter b items
    → AllAfter a items
AllAfter-trans a b [] h k = tt
AllAfter-trans a b (x ∷ xs) h k = (text_leb_trans a b x.0 h k.0, AllAfter-trans a b xs h k.1)

AllAfter-insert_item :
    (a : String) (x : String × MeterRate) (items : List (String × MeterRate))
    → text_leb a x.0 ≡ true
    → AllAfter a items
    → AllAfter a (insert_item x items)
unfolding insert_item
AllAfter-insert_item a x [] h k = (h, tt)
AllAfter-insert_item a x (y ∷ ys) h k = ground (arith, AllAfter-insert_item a x ys h k.1)

insert_item-IsSorted :
    (x : String × MeterRate) (items : List (String × MeterRate))
    → IsSorted items
    → IsSorted (insert_item x items)
unfolding insert_item
insert_item-IsSorted x [] h = (tt, tt)
insert_item-IsSorted x (y ∷ ys) h = ground (
  arith,
  text_leb_total x.0 y.0,
  AllAfter-trans x.0 y.0 ys,
  AllAfter-insert_item y.0 x ys,
  insert_item-IsSorted x ys h.1,
)

sorted_items-IsSorted : (items : List (String × MeterRate)) → IsSorted (sorted_items items)
unfolding sorted_items
sorted_items-IsSorted [] = tt
sorted_items-IsSorted (x ∷ xs) = insert_item-IsSorted x (sorted_items xs) (sorted_items-IsSorted xs)

abbrev AllBefore : Option String → List RatedLine → Type 0
AllBefore meter lines = All (λ next. Before meter next.meter) lines

overage_lines-AllBefore :
    (meter : String) (usage : Dict ℕ) (items : List (String × MeterRate))
    → AllAfter meter items
    → AllBefore (some meter) (overage_lines usage items)
unfolding overage_lines overage_line
overage_lines-AllBefore meter usage [] h = tt
overage_lines-AllBefore meter usage (x ∷ xs) h =
    ground (arith, overage_lines-AllBefore meter usage xs h.1)

overage_lines-IsOrdered :
    (usage : Dict ℕ) (items : List (String × MeterRate))
    → IsSorted items
    → IsOrdered (overage_lines usage items)
unfolding overage_lines overage_line
overage_lines-IsOrdered usage [] h = tt
overage_lines-IsOrdered usage (x ∷ xs) h =
    ground (arith, overage_lines-AllBefore x.0 usage xs h.0, overage_lines-IsOrdered usage xs h.1)

AllBefore-none : (lines : List RatedLine) → AllBefore none lines
AllBefore-none [] = tt
AllBefore-none (x ∷ xs) = (tt, AllBefore-none xs)

card_lines-IsOrdered :
    (plan : String) (usage : Dict ℕ) (card : Option RateCard)
    → IsOrdered (card_lines plan usage card)
unfolding card_lines base_lines
card_lines-IsOrdered plan usage none = tt
card_lines-IsOrdered plan usage (some card) = ground (
  arith,
  AllBefore-none (overage_lines usage (sorted_items card.meters)),
  overage_lines-IsOrdered usage (sorted_items card.meters) (sorted_items-IsSorted card.meters),
)

-- The flat line of an invoice comes first, and the overage lines follow in the order of their
-- meters' names, whatever the order of the meters in the rate card.
pub rate-IsOrdered :
    (plan : String) (usage : Dict ℕ) (cards : Option (Dict RateCard))
    → IsOrdered (rate plan usage cards)
unfolding rate
rate-IsOrdered plan usage none =
    card_lines-IsOrdered plan usage (resolve_card default_rate_cards plan)
rate-IsOrdered plan usage (some cards) = card_lines-IsOrdered plan usage (resolve_card cards plan)
