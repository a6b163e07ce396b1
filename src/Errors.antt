-- ===== src/Errors.antt =====
-- Go's `error` values, and the formatted texts that conditions, events and errors carry. A text is
-- kept as its format and arguments. `errors.Is` and `errors.As` walk the chain of wrapped errors.
use fork_kustomize_controlle.Prelude.{String, Bool, true, false, Option, none, some, ◌≡◌, refl}
use fork_kustomize_controlle.Prelude.Int.{ℤ}

-- `runtimeCtrl.QueueEventSource`: the object whose change queued a new reconciliation.
pub record QueueEventSource : Type 0 where
  pub kind : String
  pub namespace : String
  pub name : String

mutual
  pub data Err : Type 0 where
    -- an error that other code returns, by its text
    opaque : String → Err
    -- `fetch.ErrFileNotFound`
    file_not_found : Err
    queue_event : QueueEventSource → Err
    -- `acl.AccessDeniedError`
    access_denied : Arg → Err
    -- `reconcile.TerminalError`
    terminal : Err → Err
    -- `fs.PathError`, with its operation and its path
    path_error : String → String → Err → Err
    -- `fs.ErrNotExist`
    not_exist : Err
    -- a `sops.UserError`, by the text for the user
    user_error : String → Err → Err
    -- `errRecurseIgnore`
    recurse_ignore : Err → Err
    -- `fmt.Errorf` without and with `%w`
    errorf : Arg → Err
    wrapf : Arg → Err → Err

  -- What a format verb prints.
  pub data Arg : Type 0 where
    str : String → Arg
    duration : ℤ → Arg
    error : Err → Arg
    -- a format applied to its arguments
    printf : String → Args → Arg

  pub data Args : Type 0 where
    nil : Args
    arg : Arg → Args → Args

-- A Go function that returns a value and an error.
pub data Result {ℓ} (A : Type ℓ) : Type ℓ where
  ok : A → Result A
  err : Err → Result A

-- `if err != nil { return err }` between two calls
module _ {ℓ κ} {A : Type ℓ} {B : Type κ} where
  infixl 5 ◌>>=◌
  abbrev pub ◌>>=◌ : Result A → (A → Result B) → Result B
  err failure >>= next = err failure
  ok value >>= next = next value

  -- a chain that succeeds went through both of its calls
  pub >>=-eq-ok :
      (first : Result A) (next : A → Result B) {last : B}
      → first >>= next ≡ ok last
      → (value : A) × (first ≡ ok value) × (next value ≡ ok last)
  >>=-eq-ok (err failure) next reached = cc
  >>=-eq-ok (ok value) next reached = (value, refl, reached)

pub ok-injective {ℓ} : {A : Type ℓ} {a b : A} → ok a ≡ ok b → a ≡ b
ok-injective h = cc

abbrev pub Message : Type 0
Message = Arg

-- `fmt.Sprintf` with one, two and three texts.
abbrev pub sprintf₁ : String → String → Arg
sprintf₁ f a = printf f (arg (str a) nil)

abbrev pub sprintf₂ : String → String → String → Arg
sprintf₂ f a b = printf f (arg (str a) (arg (str b) nil))

abbrev pub sprintf₃ : String → String → String → String → Arg
sprintf₃ f a b c = printf f (arg (str a) (arg (str b) (arg (str c) nil)))

-- errors.Is(err, fetch.ErrFileNotFound)
unfoldable pub is_file_not_found : Err → Bool
is_file_not_found file_not_found = true
is_file_not_found (terminal e) = is_file_not_found e
is_file_not_found (wrapf f e) = is_file_not_found e
is_file_not_found (path_error op path e) = is_file_not_found e
is_file_not_found (recurse_ignore e) = is_file_not_found e
is_file_not_found _ = false

-- errors.Is(err, reconcile.TerminalError(nil))
unfoldable pub is_terminal : Err → Bool
is_terminal (terminal e) = true
is_terminal (wrapf f e) = is_terminal e
is_terminal (path_error op path e) = is_terminal e
is_terminal (recurse_ignore e) = is_terminal e
is_terminal _ = false

-- errors.As(err, &qes) for a *QueueEventSource
unfoldable pub as_queue_event : Err → Option QueueEventSource
as_queue_event (queue_event q) = some q
as_queue_event (terminal e) = as_queue_event e
as_queue_event (wrapf f e) = as_queue_event e
as_queue_event (path_error op path e) = as_queue_event e
as_queue_event (recurse_ignore e) = as_queue_event e
as_queue_event _ = none
