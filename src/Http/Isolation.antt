-- ===== src/Http/Isolation.antt =====
-- What an event of one connection does to the others: src/http/endpoint.cpp, over the pending maps of
-- the endpoint.
pub mod Wakeup
pub mod Message
pub mod Events
pub mod Dispatch
pub mod World
pub mod Close
pub mod Stop
use mongoose_cpp.Prelude.{◌==◌, ℕ, ◌≡◌, refl, ◌∙◌, ap, false, none}
use mongoose_cpp.Mongoose.{Outcome, ok, fault, ◌>>=◌}
use mongoose_cpp.Http.Endpoint.State.{System}
use mongoose_cpp.Http.Endpoint.Wakeup.Lookup.{find_at}

-- What a step leaves when it returns.
abbrev pub Leaves {ℓ} : {A : Type ℓ} → (A → Type 0) → Outcome A → Type 0
Leaves P (ok a) = P a
Leaves P (fault e) = Unit

pub Leaves-bind {ℓ κ} :
    {A : Type ℓ} {B : Type κ} (P : A → Type 0) (Q : B → Type 0) (m : Outcome A) (f : A → Outcome B)
    → Leaves P m
    → ((a : A) → P a → Leaves Q (f a))
    → Leaves Q (m >>= f)
Leaves-bind P Q (ok a) f h k = k a h
Leaves-bind P Q (fault e) f h k = tt

pub Leaves-weaken {ℓ} :
    {A : Type ℓ} (P Q : A → Type 0) (m : Outcome A)
    → ((a : A) → P a → Q a)
    → Leaves P m
    → Leaves Q m
Leaves-weaken P Q (ok a) k h = k a h
Leaves-weaken P Q (fault e) k h = tt

pub Leaves-of {ℓ} :
    {A : Type ℓ} (P : A → Type 0) (m n : Outcome A) → m ≡ n → Leaves P n → Leaves P m
Leaves-of P m n e h = rw e h

pub Leaves-any {ℓ} : {A : Type ℓ} (m : Outcome A) → Leaves (λ _. Unit {0}) m
Leaves-any (ok a) = tt
Leaves-any (fault e) = tt

pub Leaves-ok {ℓ} :
    {A : Type ℓ} (P : A → Type 0) (m : Outcome A) (a : A) → m ≡ ok a → Leaves P m → P a
Leaves-ok P m a e h = rw e at h

-- Nothing changes under another connection's id.
abbrev pub Apart : ℕ → System → System → Type 0
Apart conn s s' =
    (c id : ℕ)
    → (conn == c) ≡ false
    → (find_at c id s'.pending_responses ≡ find_at c id s.pending_responses)
      × (find_at c id s'.pending_streams ≡ find_at c id s.pending_streams)

-- Nothing is pending under the id.
abbrev pub IsIdle : ℕ → System → Type 0
IsIdle c s =
    (id : ℕ) → (find_at c id s.pending_responses ≡ none) × (find_at c id s.pending_streams ≡ none)

-- Nothing changes under another id, and nothing comes to be pending where nothing was.
abbrev pub Stays : ℕ → System → System → Type 0
Stays conn s s' = Apart conn s s' × (IsIdle conn s → IsIdle conn s')

pub Apart-trans : (conn : ℕ) (s t u : System) → Apart conn s t → Apart conn t u → Apart conn s u
Apart-trans conn s t u a b c id h = ((b c id h).0 ∙ (a c id h).0, (b c id h).1 ∙ (a c id h).1)

pub Stays-same :
    (conn : ℕ) (s s' : System)
    → s'.pending_responses ≡ s.pending_responses
    → s'.pending_streams ≡ s.pending_streams
    → Stays conn s s'
Stays-same conn s s' p q = (
  λ c id h. (ap (find_at c id) p, ap (find_at c id) q),
  λ idle id. (ap (find_at conn id) p ∙ (idle id).0, ap (find_at conn id) q ∙ (idle id).1),
)

pub Stays-trans : (conn : ℕ) (s t u : System) → Stays conn s t → Stays conn t u → Stays conn s u
Stays-trans conn s t u a b = (Apart-trans conn s t u a.0 b.0, λ idle. b.1 (a.1 idle))

-- Where something is pending, only the other ids matter.
pub Stays-of_pending :
    (conn : ℕ) (s s' : System) → (IsIdle conn s → ⊥) → Apart conn s s' → Stays conn s s'
Stays-of_pending conn s s' busy a = (a, λ idle. absurd (busy idle))
