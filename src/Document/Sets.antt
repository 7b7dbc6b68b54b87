-- ===== src/Document/Sets.antt =====
-- sorted(set(…)) of boring_agent/model.py holds the texts that the list holds, each once, in order.
use Prim.Native.Nat.{Ordering}
use Prim.Native.String.{compare}
use text.Mathlib.TextEquality.{path_by_compare}
use boring_orch_agent.Base.{
  String, ◌≡◌, refl, ap, ◌∙◌, List, [], ◌∷◌, arith, ◌||◌, ◌&&◌, str_eq, ◌⊎◌, inl, inr,
}
use boring_orch_agent.Document.Json.{mem, is_subset, insert_once, sorted_set}

Ordering-cases : (o : Ordering) → (o ≡ Ordering.lt) ⊎ (o ≡ Ordering.eq) ⊎ (o ≡ Ordering.gt)
Ordering-cases Ordering.lt = inl refl
Ordering-cases Ordering.eq = inr (inl refl)
Ordering-cases Ordering.gt = inr (inr refl)

mem-insert_once :
    (k s : String) (ts : List String) → mem k (insert_once s ts) ≡ (str_eq s k || mem k ts)
unfolding mem insert_once
mem-insert_once k s [] = refl
mem-insert_once k s (t ∷ ts) = elim (Ordering-cases (compare s t)) [
  | inl e ↦ ground (arith, e)
  | inr (inl e) ↦ ground (arith, e, path_by_compare s t e)
  | inr (inr e) ↦ ground (arith, e, mem-insert_once k s ts)
]

pub mem-sorted_set : (k : String) (ss : List String) → mem k (sorted_set ss) ≡ mem k ss
unfolding mem sorted_set
mem-sorted_set k [] = refl
mem-sorted_set k (s ∷ ss) =
    mem-insert_once k s (sorted_set ss) ∙ ap (λ b. str_eq s k || b) (mem-sorted_set k ss)

is_subset-insert_once :
    (s : String) (ts us : List String) → is_subset (insert_once s ts) us ≡ is_subset (s ∷ ts) us
unfolding is_subset insert_once
is_subset-insert_once s [] us = refl
is_subset-insert_once s (t ∷ ts) us = elim (Ordering-cases (compare s t)) [
  | inl e ↦ ground (arith, e)
  | inr (inl e) ↦ ground (arith, e, path_by_compare s t e)
  | inr (inr e) ↦ ground (arith, e, is_subset-insert_once s ts us)
]

pub is_subset-sorted_set : (ss us : List String) → is_subset (sorted_set ss) us ≡ is_subset ss us
unfolding is_subset sorted_set
is_subset-sorted_set [] us = refl
is_subset-sorted_set (s ∷ ss) us =
    is_subset-insert_once s (sorted_set ss) us
    ∙ ap (λ b. mem s us && b) (is_subset-sorted_set ss us)
