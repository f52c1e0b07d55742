-- ===== src/TaskService/Growth.antt =====
-- Every call of the service keeps the rollbacks that it finds, and registers those of its rows.
use tapis_workflows.Base.{
  ℕ, String, ◌≡◌, inl, inr, refl, sym, ◌∙◌, Bool, true, false, Option, none, some, List, [], ◌∷◌,
  ◌++◌, Result, ok, err, ok-injective, In, Bool-cases, Option-cases, nat_eq, string_eq,
}
use tapis_workflows.TaskService.{
  Rollback, delete_credentials, delete_context, delete_destination, TaskService, Authn, TaskRequest,
  Calls, Raised, rollback, add_rollback, resolve_authn_source, after, or_rollback, save_context,
  create_context, save_destination, create_destination, optional, make_targets, owned_identity,
}

-- Every rollback of the first state is one of the second.
abbrev pub Extends : TaskService → TaskService → Type 0
Extends s s' = (r : Rollback) → In r s.rollbacks → In r s'.rollbacks

In-append_left : (r : Rollback) (xs ys : List Rollback) → In r xs → In r (xs ++ ys)
In-append_left r [] ys i = absurd i
In-append_left r (x ∷ xs) ys (inl e) = inl e
In-append_left r (x ∷ xs) ys (inr i) = inr (In-append_left r xs ys i)

In-append_last : (r : Rollback) (xs : List Rollback) → In r (xs ++ (r ∷ []))
In-append_last r [] = inl refl
In-append_last r (x ∷ xs) = inr (In-append_last r xs)

pub err≢ok : {A : Type 0} {e : Raised} {a : A} → ◌≡◌ {A = Result Raised A} (err e) (ok a) → ⊥
err≢ok h = cc

module _ {A B : Type 0} (rest : A → TaskService → TaskService × Result Raised B) where
  pub after-elim :
      (P : TaskService × Result Raised B → Type 0) (call : TaskService × Result Raised A)
      → ((e : Raised) → call.1 ≡ err e → P (call.0, err e))
      → ((a : A) → call.1 ≡ ok a → P (rest a call.0))
      → P (after call rest)
  after-elim P (s, err e) raised returned = raised e refl
  after-elim P (s, ok a) raised returned = returned a refl

  after-Extends :
      (call : TaskService × Result Raised A) (s : TaskService)
      → Extends s call.0
      → ((a : A) (s' : TaskService) → Extends s' (rest a s').0)
      → Extends s (after call rest).0
  after-Extends call s h k =
      after-elim (λ x. Extends s x.0) call (λ e _. h) (λ a _ r i. k a call.0 r (h r i))

module _ {A : Type 0} (calls : Calls) where
  pub or_rollback-elim :
      (P : TaskService × Result Raised A → Type 0) (call : TaskService × Result Raised A)
      → ((e : Raised) → call.1 ≡ err e → P (rollback calls call.0, err e))
      → ((a : A) → call.1 ≡ ok a → P (call.0, ok a))
      → P (or_rollback calls call)
  unfolding or_rollback
  or_rollback-elim P (s, err e) raised returned = raised e refl
  or_rollback-elim P (s, ok a) raised returned = returned a refl

  or_rollback-Extends :
      (call : TaskService × Result Raised A) (s : TaskService)
      → Extends s call.0
      → Extends s (or_rollback calls call).0
  unfolding rollback
  or_rollback-Extends call s h = or_rollback-elim (λ x. Extends s x.0) call (λ e _. h) (λ a _. h)

resolve_authn_source-Extends :
    (calls : Calls) (secret : Option ℕ) (owner : String) (target : Authn) (s : TaskService)
    → Extends s (resolve_authn_source calls secret owner target s).0
unfolding resolve_authn_source add_rollback
resolve_authn_source-Extends calls secret owner target s r i =
    elim (Option-cases target.identity_uuid) [
      | inr (uuid, given) ↦ elim (Bool-cases (owned_identity calls.identities uuid owner)) [
        | inl known ↦ rw (resolve_authn_source, given, known) i
        | inr unknown ↦ rw (resolve_authn_source, given, unknown) i
      ]
      | inl none_given ↦ elim (Bool-cases target.has_credentials) [
        | inr without ↦ rw (resolve_authn_source, none_given, without) i
        | inl with ↦ elim (Option-cases secret) [
          | inl lost ↦ rw (resolve_authn_source, none_given, with, lost) i
          | inr (k, saved) ↦
              rw (resolve_authn_source, none_given, with, saved)
                (In-append_left r s.rollbacks (delete_credentials k ∷ []) i)
        ]
      ]
    ]

save_context-Extends :
    (row : Option ℕ) (authn : Option String × Option ℕ) (s : TaskService)
    → Extends s (save_context row authn s).0
unfolding save_context add_rollback
save_context-Extends none (identity, cred) s r i = i
save_context-Extends (some k) (identity, cred) s r i =
    In-append_left r s.rollbacks (delete_context k ∷ []) i

save_destination-Extends :
    (valid : Bool) (row : Option ℕ) (authn : Option String × Option ℕ) (s : TaskService)
    → Extends s (save_destination valid row authn s).0
unfolding save_destination add_rollback
save_destination-Extends false row (identity, cred) s r i = i
save_destination-Extends true none (identity, cred) s r i = i
save_destination-Extends true (some k) (identity, cred) s r i =
    In-append_left r s.rollbacks (delete_destination k ∷ []) i

create_context-Extends :
    (calls : Calls) (owner : String) (target : Authn) (s : TaskService)
    → Extends s (create_context calls owner target s).0
unfolding create_context
create_context-Extends calls owner target s =
    after-Extends (save_context calls.context_row)
      (resolve_authn_source calls calls.context_secret owner target s) s
      (resolve_authn_source-Extends calls calls.context_secret owner target s)
      (save_context-Extends calls.context_row)

pub create_destination-Extends :
    (calls : Calls) (owner : String) (target : Authn) (s : TaskService)
    → Extends s (create_destination calls owner target s).0
unfolding create_destination
create_destination-Extends calls owner target s =
    after-Extends
      (λ authn s'.
        or_rollback calls (save_destination calls.destination_valid calls.destination_row authn s'))
      (resolve_authn_source calls calls.destination_secret owner target s) s
      (resolve_authn_source-Extends calls calls.destination_secret owner target s)
      (λ authn s'.
        or_rollback-Extends calls
          (save_destination calls.destination_valid calls.destination_row authn s') s'
          (save_destination-Extends calls.destination_valid calls.destination_row authn s'))

pub optional-Extends :
    (make : Authn → TaskService → TaskService × Result Raised ℕ) (target : Option Authn)
    (s : TaskService)
    → ((a : Authn) (s' : TaskService) → Extends s' (make a s').0)
    → Extends s (optional make target s).0
unfolding optional
optional-Extends make none s h = λ r i. i
optional-Extends make (some a) s h =
    after-Extends (λ k s'. (s', ok (some k))) (make a s) s (h a s) (λ k s' r i. i)

pub make_targets-Extends :
    (calls : Calls) (owner : String) (request : TaskRequest) (s : TaskService)
    → Extends s (make_targets calls owner request s).0
unfolding make_targets
make_targets-Extends calls owner request s =
    after-Extends
      (λ context s'.
        after (optional (create_destination calls owner) request.destination s')
          (λ destination s''. (s'', ok (context, destination))))
      (optional (create_context calls owner) request.context s) s
      (optional-Extends (create_context calls owner) request.context s
        (create_context-Extends calls owner))
      (λ context s'.
        after-Extends (λ destination s''. (s'', ok (context, destination)))
          (optional (create_destination calls owner) request.destination s') s'
          (optional-Extends (create_destination calls owner) request.destination s'
            (create_destination-Extends calls owner))
          (λ destination s'' r i. i))

-- The row that a call returns has its rollback.
abbrev pub Registers : (ℕ → Rollback) → TaskService × Result Raised ℕ → Type 0
Registers r x = (k : ℕ) → x.1 ≡ ok k → In (r k) x.0.rollbacks

save_context-Registers :
    (row : Option ℕ) (authn : Option String × Option ℕ) (s : TaskService)
    → Registers delete_context (save_context row authn s)
unfolding save_context add_rollback
save_context-Registers none (identity, cred) s k e = cc
save_context-Registers (some j) (identity, cred) s k e =
    rw (sym (ok-injective e)) (In-append_last (delete_context j) s.rollbacks)

save_destination-Registers :
    (valid : Bool) (row : Option ℕ) (authn : Option String × Option ℕ) (s : TaskService)
    → Registers delete_destination (save_destination valid row authn s)
unfolding save_destination add_rollback
save_destination-Registers false row (identity, cred) s k e = cc
save_destination-Registers true none (identity, cred) s k e = cc
save_destination-Registers true (some j) (identity, cred) s k e =
    rw (sym (ok-injective e)) (In-append_last (delete_destination j) s.rollbacks)

pub create_context-Registers :
    (calls : Calls) (owner : String) (target : Authn) (s : TaskService)
    → Registers delete_context (create_context calls owner target s)
unfolding create_context
create_context-Registers calls owner target s =
    after-elim (save_context calls.context_row) (Registers delete_context)
      (resolve_authn_source calls calls.context_secret owner target s)
      (λ e _ k f. absurd (err≢ok f)) (λ authn _. save_context-Registers calls.context_row authn _)

pub create_destination-Registers :
    (calls : Calls) (owner : String) (target : Authn) (s : TaskService)
    → Registers delete_destination (create_destination calls owner target s)
unfolding create_destination
create_destination-Registers calls owner target s =
    let call = resolve_authn_source calls calls.destination_secret owner target s in
    after-elim
      (λ authn s'.
        or_rollback calls (save_destination calls.destination_valid calls.destination_row authn s'))
      (Registers delete_destination) call (λ e _ k f. absurd (err≢ok f))
      (λ authn _.
        let saved = save_destination calls.destination_valid calls.destination_row authn call.0 in
        or_rollback-elim calls (Registers delete_destination) saved (λ e _ k f. absurd (err≢ok f))
          (λ a same k f.
            save_destination-Registers calls.destination_valid calls.destination_row authn call.0 k
              (same ∙ f)))
