-- ===== src/Seats/Expiry.antt =====
-- `HoldExpiryWorker` (apps/seat-inventory-service/src/hold/hold-expiry.worker.ts): every ten seconds
-- it releases the seats of the holds that have expired.
pub mod Grouping
pub mod Closing
use distributed_nestjs_event.Base.{
  ℕ, Bool, true, false, List, [], ◌∷◌, ◌++◌, map, ◌==◌, ◌&&◌, ltb, is_none, if◌then◌else◌, Action,
  pure, query, gets, modify, try_catch, finally, ◌>>=◌, ◌>>◌,
}
use distributed_nestjs_event.Seats.Types.{Platform, State, SeatHold, timeout}
use distributed_nestjs_event.Seats.Holds.{release_seats}

-- `where: { expiresAt: LessThan(now), releasedAt: IsNull() }`
abbrev pub has_expired : ℕ → SeatHold → Bool
has_expired now h = ltb h.expires_at now && is_none h.released_at

-- The holds of an entry of the map `grouped`, of which there is a first one.
pub record HoldGroup : Type 0 where
  pub first : SeatHold
  pub more : List SeatHold

-- Whether a hold has the key `${eventId}:${userId}`
abbrev pub of_user : ℕ → ℕ → SeatHold → Bool
of_user event user h = h.event_id == event && h.user_id == user

abbrev pub in_group : SeatHold → HoldGroup → Bool
in_group h g = of_user h.event_id h.user_id g.first

abbrev pub group_holds : HoldGroup → List SeatHold
group_holds g = g.first ∷ g.more

-- The body of the loop that groups the holds; a new key comes last in the map.
unfoldable pub add_hold : SeatHold → List HoldGroup → List HoldGroup
add_hold h [] = record { first = h; more = [] } ∷ []
add_hold h (g ∷ gs) =
    let rest = add_hold h gs in
    if in_group h g then record g { more = g.more ++ h ∷ [] } ∷ gs else g ∷ rest

unfoldable pub group_all : List SeatHold → List HoldGroup → List HoldGroup
group_all [] groups = groups
group_all (h ∷ hs) groups = group_all hs (add_hold h groups)

module _ (P : Platform) where
  open P use {holds}

  -- The body of the loop over the groups, with its error logged.
  unfoldable pub release_group : HoldGroup → Action (State P) (Unit {0})
  release_group g =
      try_catch
        (release_seats P g.first.event_id (map (λ h. h.seat_id) (group_holds g)) g.first.user_id
          timeout)
        (λ error. pure tt)

  unfoldable pub release_groups : List HoldGroup → Action (State P) (Unit {0})
  release_groups [] = pure tt
  release_groups (g ∷ gs) = release_group g >> release_groups gs

  -- `processExpiredHolds`; without an expired hold there is no group, so that the early return needs
  -- no case of its own
  unfoldable pub process_expired_holds : Action (State P) (Unit {0})
  process_expired_holds = gets (λ s. s.is_processing) >>= λ busy. elim busy [
    | true ↦ pure tt
    | false ↦
        modify (λ s. record s { is_processing = true })
        >> finally
            (query (λ s. holds.find (has_expired s.now) s.db.seat_holds) >>= λ expired.
              release_groups (group_all expired []))
            (λ s. record s { is_processing = false })
  ]
