-- ===== src/Base/Request.antt =====
-- The monad of a request: the state that the services share, the script of what the outside
-- calls do, and the exception that ends it. A throw keeps the state reached so far.
use Prim.Native.Nat.{ℕ}
use mathlib.Core.Bool.{Bool, true, false}
use mathlib.Core.Option.{Option, none, some}
use mathlib.Core.List.{List, [], ◌∷◌}
use mathlib.Core.Path.{◌≡◌, refl}
use native.Mathlib.Omega.{arith}
use mathlib.Core.Logic.{◌⊎◌, inl, inr}
use distributed_nestjs_event.Base.Tests.{if◌then◌else◌}

-- What a call that leaves the process does: it answers, it answers `success: false` with a
-- reason, or its promise is rejected.
pub data Reply : Type 0 where
  answered : Reply
  refused : ℕ → Reply
  rejected : Reply

-- The replies still to come, in the order of the calls. After the last every call answers.
abbrev pub Script : Type 0
Script = List Reply

-- The reply to the next call, and those to the calls after it.
unfoldable pub next_reply : Script → Reply
next_reply [] = answered
next_reply (x ∷ r) = x

unfoldable pub later_replies : Script → Script
later_replies [] = []
later_replies (x ∷ r) = r

abbrev pub rejects : Reply → Bool
rejects answered = false
rejects (refused _) = false
rejects rejected = true

-- What is thrown, with what its message interpolates. `rejected_call` is the rejection of an
-- outside call, and `reason` a text that another service supplied.
pub data Error : Type 0 where
  rejected_call transaction_not_started booking_not_found not_allowed not_confirmed : Error
  invalid_refund_state mark_sold_failed refund_failed_null : Error
  type_error hold_not_verified booking_not_loaded payment_not_initiated : Error
  seats_not_found seats_not_held : List ℕ → Error
  provider_not_supported payment_not_found no_succeeded_payment : Error
  user_exists invalid_credentials invalid_refresh_token refresh_token_expired : Error
  user_not_found invalid_token : Error
  venue_not_found event_not_found validation_failed : Error
  section_not_found : ℕ → Error
  template_not_found unsupported_channel : Error
  no_authorization_header invalid_header_format invalid_authorization_type : Error
  token_has_expired token_is_invalid token_verification_failed : Error
  payment_failed : Error → Error
  reason : ℕ → Error
  refund_failed : Error → Error
  seats_already_held seats_not_available : List ℕ → Error
  seat_not_found ticket_not_found ticket_used ticket_cancelled : ℕ → Error

pub data Result (A : Type 0) : Type 0 where
  ok : A → Result A
  err : Error → Result A

abbrev pub is_err : {A : Type 0} → Result A → Bool
is_err (ok _) = false
is_err (err _) = true

abbrev pub answer : Reply → Result (Option ℕ)
answer answered = ok none
answer (refused n) = ok (some n)
answer rejected = err rejected_call

abbrev pub Action : Type 0 → Type 0 → Type 0
Action S A = S → Script → Result A × S × Script

module _ {S : Type 0} where
  abbrev pub pure : {A : Type 0} → A → Action S A
  pure a s r = (ok a, s, r)

  abbrev pub throw : {A : Type 0} → Error → Action S A
  throw e s r = (err e, s, r)

  abbrev pub gets : {A : Type 0} → (S → A) → Action S A
  gets f s r = (ok (f s), s, r)

  abbrev pub modify : (S → S) → Action S (Unit {0})
  modify f s r = (ok tt, f s, r)

  infixl 5 ◌>>=◌ ◌>>◌
  abbrev pub ◌>>=◌ : {A B : Type 0} → Action S A → (A → Action S B) → Action S B
  ◌>>=◌ m k s r = let (a, s', r') = m s r in elim a [ ok x ↦ k x s' r' | err e ↦ (err e, s', r') ]

  abbrev pub ◌>>◌ : {A B : Type 0} → Action S A → Action S B → Action S B
  m >> k = m >>= λ _. k

  -- `try { m } catch (error) { h error }`
  abbrev pub try_catch : {A : Type 0} → Action S A → (Error → Action S A) → Action S A
  try_catch m h s r =
      let (a, s', r') = m s r in elim a [ ok x ↦ (ok x, s', r') | err e ↦ h e s' r' ]

  abbrev pub throw_if : Bool → Error → Action S (Unit {0})
  throw_if c e s r = (if c then err e else ok tt, s, r)

  -- An awaited call: it may reject.
  abbrev pub call : Action S (Unit {0})
  call s r = (if rejects (next_reply r) then err rejected_call else ok tt, s, later_replies r)

  -- A remote call whose answer has a `success` flag: `none` is success, `some n` a refusal for
  -- the reason n.
  abbrev pub rpc : Action S (Option ℕ)
  rpc s r = (answer (next_reply r), s, later_replies r)

  -- `finally`: what runs after the block, however it ends.
  abbrev pub finally : {A : Type 0} → Action S A → (S → S) → Action S A
  finally m f s r = let (a, s', r') = m s r in (a, f s', r')

  -- A query reads when its call answers, and a write is there when its call answers.
  abbrev pub query : {A : Type 0} → (S → A) → Action S A
  query f = call >>= λ _. gets f

  abbrev pub write : (S → S) → Action S (Unit {0})
  write f = call >>= λ _. modify f

module _ {A : Type 0} where
  pub Result-cases : (x : Result A) → ((a : A) × (x ≡ ok a)) ⊎ ((e : Error) × (x ≡ err e))
  Result-cases (ok a) = inl (a, refl)
  Result-cases (err e) = inr (e, refl)

module _ {S A B : Type 0} where
  -- A chain that ends well has passed its first step.
  pub >>=-ok :
      (m : Action S A) (k : A → Action S B) (s : S) (r : Script) (b : B)
      → ((m >>= k) s r).0 ≡ ok b
      → (a : A) × ((m s r).0 ≡ ok a) × ((m >>= k) s r ≡ k a (m s r).1 (m s r).2)
  >>=-ok m k s r b h = elim (Result-cases (m s r).0) [
    | inl (a, e) ↦ (a, e, ground arith)
    | inr (x, e) ↦ absurd (ground arith)
  ]
