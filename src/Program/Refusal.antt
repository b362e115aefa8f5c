-- ===== src/Program/Refusal.antt =====
-- A command line that is refused, and the rest of the program.
use canokey_usbip.Prelude.{
  ◌≡◌, String, Bool, true, false, ◌&&◌, ◌||◌, pos, is_positive, Option, none, some, arith,
  if◌then◌else◌,
}
use canokey_usbip.Host.{
  Event, FilePath, History, Env, raised, system_exit, Exec, Exc, pure, raise, raise_if, continue,
  ◌>>=◌,
}
use canokey_usbip.Host.Calls
use canokey_usbip.Host.Within.{Within, Within-bind}
use canokey_usbip.Host.Plain.{IsPlain, Anything, plain_rules}
use canokey_usbip.Options.{Arguments, is_given, resolve_given, choose_output, parse_args}

-- The conditions of `parse_args`.
abbrev pub is_accepted : Arguments → Bool
is_accepted args = is_positive args.timeout && (args.build_only || is_given args.test_command)

abbrev pub refusal : Arguments → String
refusal args =
    if is_positive args.timeout
    then "--test-command is required"
    else "--timeout must be greater than zero"

-- Paths are resolved and the time is read.
abbrev pub IsLook : Event → Type 0
IsLook (Event.resolve p) = Unit
IsLook Event.utc_now = Unit
IsLook _ = ⊥

module _ ⦃host : Env⦄ (repo_dir : FilePath) (args : Arguments) where
  pub parse_args-refused :
      {S : Type 0} (s : S) (t : History)
      → is_accepted args ≡ false
      → parse_args repo_dir args s t ≡ (raised (system_exit (pos 2) (refusal args)), s, t)
  unfolding parse_args ◌>>=◌ raise_if raise pure continue
  parse_args-refused s t h = ground arith

  module _ {S : Type 0} where
    abbrev Looks : {A : Type 0} → Exec S A → Type 0
    Looks = Within ⊥ Anything IsLook IsPlain

    pub resolve_given-Looks : (o : Option FilePath) → Looks (resolve_given o)
    unfolding resolve_given Calls.resolve
    resolve_given-Looks none = search plain_rules
    resolve_given-Looks (some p) = search plain_rules depth 10

    choose_output-Looks : (d : FilePath) (o : Option FilePath) → Looks (choose_output d o)
    unfolding choose_output Calls.utc_now
    choose_output-Looks d none = search plain_rules depth 10
    choose_output-Looks d (some p) = search plain_rules

    passed : (b : Bool) (e : Exc) → b ≡ false → Looks (raise_if b e)
    unfolding raise_if
    passed b e h = rw h (search plain_rules)

    pub parse_args-Looks : is_accepted args ≡ true → Looks (parse_args repo_dir args)
    unfolding parse_args Calls.resolve
    parse_args-Looks h = Within-bind _ _ (passed _ _ (ground arith)) λ u.
        Within-bind _ _ (passed _ _ (ground arith))
          λ v. search (plain_rules, resolve_given-Looks, choose_output-Looks) depth 20
