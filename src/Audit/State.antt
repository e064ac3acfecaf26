-- ===== src/Audit/State.antt =====
-- crates/ssh-core/src/audit/retention.rs: the state of the ledger, and calls that change it and can fail.
use mcp_ssh_rs.Prelude.{
  ℕ, zero, suc, ◌-◌, Bool, true, false, Option, none, some, List, [], ◌∷◌, leb, if◌then◌else◌,
  Result, ok, err, nat_eq, ◌≡◌, refl, subst,
}
use mcp_ssh_rs.Text.{Text}
use mcp_ssh_rs.Dict.{Dict, get}
use mcp_ssh_rs.Ids.{AccessClass}
use mcp_ssh_rs.Action.{ActionKind}
use mcp_ssh_rs.Audit.{Attribution, AuditError, Entry, Held, Proof}

pub record Limits : Type 0 where
  pub entries : ℕ
  pub readable_bytes : ℕ
  pub readable_millis : ℕ
  pub active_proofs : ℕ
  pub proof_bytes : ℕ
  pub evaluation_ids : ℕ

pub record Issued : Type 0 where
  pub digests : List Text
  pub retired : ℕ
  pub total : ℕ
  pub checkpoint : Text

pub record ReadableDecision : Type 0 where
  pub operation : ActionKind
  pub sequence : ℕ
  pub attribution : Attribution
  pub argv : List Text
  pub agent_intent : Text
  pub purpose : Text
  pub access_class : AccessClass

-- The sets are lists.
pub record EvaluationIndex : Type 0 where
  pub issued_ids : List Text
  pub evaluated_decisions : List Text
  pub readable_decisions : Dict Text ReadableDecision
  pub readable_artifacts : Dict Text Entry

-- `heap` is where the shared proofs are: a `Weak` is an address, and the proof is there as long as
-- somebody holds it.
pub record State : Type 0 where
  pub entries : List Held
  pub issued : Issued
  pub evaluations : EvaluationIndex
  pub proofs : Dict ℕ ℕ
  pub readable_bytes : ℕ
  pub sizes : List ℕ
  pub heap : Dict ℕ Proof

-- `Limits::default`.
abbrev pub default_limits : Limits
default_limits = record {
  entries = 4096;
  readable_bytes = 16777216;
  readable_millis = 3600000;
  active_proofs = 1024;
  proof_bytes = 16777216;
  evaluation_ids = 65536;
}

-- `State::new`.
abbrev pub new : Text → State
new genesis = record {
  entries = [];
  issued = record { digests = []; retired = 0; total = 0; checkpoint = genesis };
  evaluations = record {
    issued_ids = [];
    evaluated_decisions = [];
    readable_decisions = [];
    readable_artifacts = [];
  };
  proofs = [];
  readable_bytes = 0;
  sizes = [];
  heap = [];
}

-- `VecDeque::get`, an update in place, and `back`.
module _ {A : Type 0} where
  abbrev pub get_at : ℕ → List A → Option A
  get_at n [] = none
  get_at zero (x ∷ xs) = some x
  get_at (suc n) (x ∷ xs) = get_at n xs

  abbrev pub set_at : ℕ → A → List A → List A
  set_at n a [] = []
  set_at zero a (x ∷ xs) = a ∷ xs
  set_at (suc n) a (x ∷ xs) = x ∷ set_at n a xs

  abbrev pub back : List A → Option A
  back [] = none
  back (x ∷ []) = some x
  back (x ∷ y ∷ xs) = back (y ∷ xs)

  abbrev pub pop_front : List A → List A
  pop_front [] = []
  pop_front (x ∷ xs) = xs

-- A call under the ledger's lock. What it wrote stays written when it fails.
abbrev pub Action : Type 0 → Type 0
Action A = State → State × Result AuditError A

abbrev pub pure : {A : Type 0} → A → Action A
pure a s = (s, ok a)

abbrev pub fail : {A : Type 0} → AuditError → Action A
fail e s = (s, err e)

abbrev pub next :
    {A B : Type 0} → (A → Action B) → State × Result AuditError A → State × Result AuditError B
next f (s, ok a) = f a s
next f (s, err e) = (s, err e)

infixl 5 ◌>>=◌ ◌>>◌
abbrev pub ◌>>=◌ : {A B : Type 0} → Action A → (A → Action B) → Action B
◌>>=◌ m f s = next f (m s)

abbrev pub ◌>>◌ : {A B : Type 0} → Action A → Action B → Action B
m >> k = m >>= λ _. k

abbrev pub gets : {A : Type 0} → (State → A) → Action A
gets f s = (s, ok (f s))

abbrev pub modify : (State → State) → Action (Unit {0})
modify f s = (f s, ok tt)

abbrev pub fail_if : Bool → AuditError → Action (Unit {0})
fail_if true e = fail e
fail_if false e = pure tt

-- `?` on a result that reads nothing.
abbrev pub lift : {A : Type 0} → Result AuditError A → Action A
lift r s = (s, r)

-- `State::get`.
abbrev pub entry_at : ℕ → State → Option Held
entry_at sequence s =
    if leb s.issued.retired sequence then get_at (sequence - s.issued.retired) s.entries else none

-- `State::active_proof`, as the address and what is there.
abbrev pub upgrade : Dict ℕ Proof → Option ℕ → Option (ℕ × Proof)
upgrade heap none = none
upgrade heap (some address) = elim (get address heap) [
  | none ↦ none
  | some proof ↦ some (address, proof)
]

unfoldable pub active_proof : ℕ → State → Option (ℕ × Proof)
active_proof sequence s = upgrade s.heap (get sequence s.proofs)

-- What holds of the state and the result of a call, and of the state that it fails in.
pub record Post {A : Type 0} (P : A → State → Type 0) (Q : State → Type 0)
    (r : State × Result AuditError A) : Type 0 where
  pub on_ok : (a : A) → r.1 ≡ ok a → P a r.0
  pub on_err : (e : AuditError) → r.1 ≡ err e → Q r.0

module _ {A : Type 0} {P : A → State → Type 0} {Q : State → Type 0} where
  pub ok-Post : (a : A) (s : State) → P a s → Post P Q (s, ok a)
  ok-Post a s p = record {
    on_ok = λ b e. subst (λ c. P c s) (cc e) p;
    on_err = λ b e. absurd (cc e);
  }

  pub err-Post : (e : AuditError) (s : State) → Q s → Post P Q (s, err e)
  err-Post e s q = record { on_ok = λ b e. absurd (cc e); on_err = λ b e. q }

pub Post-map :
    {A : Type 0} (P R : A → State → Type 0) (Q : State → Type 0) (r : State × Result AuditError A)
    → Post P Q r
    → ((a : A) (t : State) → P a t → R a t)
    → Post R Q r
Post-map P R Q r h f = record { on_ok = λ a e. f a r.0 (h.on_ok a e); on_err = h.on_err }

module _ {A B : Type 0} {P : A → State → Type 0} {R : B → State → Type 0} {Q : State → Type 0} where
  pub next-Post :
      (f : A → Action B) (r : State × Result AuditError A)
      → Post P Q r
      → ((a : A) (t : State) → P a t → Post R Q (f a t))
      → Post R Q (next f r)
  next-Post f (s, ok a) h k = k a s (h.on_ok a refl)
  next-Post f (s, err e) h k = err-Post e s (h.on_err e refl)

module _ {B : Type 0} {R : B → State → Type 0} {Q : State → Type 0} where
  -- A guard, and what comes after it when it lets through.
  pub fail_if-Post :
      (b : Bool) (e : AuditError) (f : Action B) (s : State)
      → Q s
      → (b ≡ false → Post R Q (f s))
      → Post R Q ((fail_if b e >> f) s)
  fail_if-Post true e f s q k = err-Post e s q
  fail_if-Post false e f s q k = k refl

  -- A check that changes nothing.
  pub lift-Post :
      {A : Type 0} (r : Result AuditError A) (f : A → Action B) (s : State)
      → Q s
      → ((a : A) → r ≡ ok a → Post R Q (f a s))
      → Post R Q (next f (s, r))
  lift-Post (ok a) f s q k = k a refl
  lift-Post (err e) f s q k = err-Post e s q
