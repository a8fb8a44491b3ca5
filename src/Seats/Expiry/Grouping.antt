-- ===== src/Seats/Expiry/Grouping.antt =====
-- The groups of the expiry worker.
use distributed_nestjs_event.Base.{
  ℕ, ◌≡◌, refl, List, [], ◌∷◌, ◌++◌, arith, if◌then◌else◌, filter, sym, ap,
}
use distributed_nestjs_event.Seats.Types.{SeatHold}
use distributed_nestjs_event.Seats.Expiry.{HoldGroup, of_user, group_holds, add_hold, group_all}

-- `grouped.get(key)`, with no holds where the key is missing.
abbrev pub holds_of : ℕ → ℕ → List HoldGroup → List SeatHold
holds_of event user [] = []
holds_of event user (g ∷ gs) =
    if of_user event user g.first then group_holds g else holds_of event user gs

++-assoc : (xs ys zs : List SeatHold) → (xs ++ ys) ++ zs ≡ xs ++ (ys ++ zs)
++-assoc [] ys zs = refl
++-assoc (x ∷ xs) ys zs = ap (λ l. x ∷ l) (++-assoc xs ys zs)

++-nil : (xs : List SeatHold) → xs ++ [] ≡ xs
++-nil [] = refl
++-nil (x ∷ xs) = ap (λ l. x ∷ l) (++-nil xs)

add_hold-holds_of :
    (event user : ℕ) (h : SeatHold) (gs : List HoldGroup)
    → holds_of event user (add_hold h gs)
      ≡ holds_of event user gs ++ (if of_user event user h then h ∷ [] else [])
unfolding add_hold
add_hold-holds_of event user h [] = ground arith
add_hold-holds_of event user h (g ∷ gs) = ground (
  arith,
  add_hold-holds_of event user h gs,
  ++-nil (group_holds g),
  ++-nil (holds_of event user gs),
)

holds_of-group_all :
    (event user : ℕ) (hs : List SeatHold) (gs : List HoldGroup)
    → holds_of event user (group_all hs gs)
      ≡ holds_of event user gs ++ filter (of_user event user) hs
unfolding group_all
holds_of-group_all event user [] gs = sym (++-nil (holds_of event user gs))
holds_of-group_all event user (h ∷ hs) gs = ground (
  arith,
  holds_of-group_all event user hs (add_hold h gs),
  add_hold-holds_of event user h gs,
  ++-assoc (holds_of event user gs) (if of_user event user h then h ∷ [] else [])
      (filter (of_user event user) hs),
  ++-nil (holds_of event user gs),
)

-- The grouping loses no hold and mixes no two users or events: the holds that the map has for an
-- event and a user are those of the list that belong to them, in their order.
pub group_all-filter :
    (event user : ℕ) (hs : List SeatHold)
    → holds_of event user (group_all hs []) ≡ filter (of_user event user) hs
group_all-filter event user hs = holds_of-group_all event user hs []
