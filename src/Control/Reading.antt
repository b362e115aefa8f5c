-- ===== src/Control/Reading.antt =====
-- What reads the state file, or decides on what the host has answered, changes and calls nothing.
use canokey_usbip.Prelude.{ℤ, Option, none, some, String, lookup}
use canokey_usbip.Host.{Event, Env, Json, JsonDict}
use canokey_usbip.Host.Within.{Within}
use canokey_usbip.Host.Plain.{IsPlain, plain_rules}
use canokey_usbip.Host.Polling.{Waited, found, expired}
use canokey_usbip.Harness.{int_of}
use canokey_usbip.Control.State.{
  Session, present, required, text_of, text_or, requirements_of, port_of, platform_of,
}
use canokey_usbip.Control.Stop.{pid_of}
use canokey_usbip.Control.Start.{exited, started_or_timeout}
use canokey_usbip.Control.Main.{recorded_platform}

module _ {D S : Type 0} {I : S → Type 0} {P : Event → Type 0} where
  pub present-Within : (k : String) (o : Option Json) → Within D I P IsPlain (present {S = S} k o)
  unfolding present
  present-Within k none = search plain_rules
  present-Within k (some v) = search plain_rules

  pub required-Within : (k : String) (d : JsonDict) → Within D I P IsPlain (required {S = S} k d)
  unfolding required
  required-Within k d = present-Within k (lookup k d)

  pub text_of-Within : (j : Json) → Within D I P IsPlain (text_of {S = S} j)
  unfolding text_of
  text_of-Within (Json.str s) = search plain_rules
  text_of-Within _ = search plain_rules

  pub text_or-Within : (d : String) (o : Option Json) → Within D I P IsPlain (text_or {S = S} d o)
  unfolding text_or
  text_or-Within d none = search plain_rules
  text_or-Within d (some j) = search (plain_rules, text_of-Within)

  pub int_of-Within : (o : Option Json) → Within D I P IsPlain (int_of {S = S} o)
  unfolding int_of
  int_of-Within (some (Json.num n)) = search plain_rules
  int_of-Within (some (Json.bool b)) = search plain_rules
  int_of-Within (some (Json.str s)) = search plain_rules
  int_of-Within _ = search plain_rules

  pub requirements_of-Within : (o : Option Json) → Within D I P IsPlain (requirements_of {S = S} o)
  unfolding requirements_of
  requirements_of-Within none = search plain_rules
  requirements_of-Within (some (Json.strs names)) = search plain_rules
  requirements_of-Within (some (Json.str s)) = search plain_rules
  requirements_of-Within (some (Json.table fs ls)) = search plain_rules
  requirements_of-Within (some _) = search plain_rules

  pub port_of-Within : (o : Option Json) → Within D I P IsPlain (port_of {S = S} o)
  unfolding port_of
  port_of-Within none = search plain_rules
  port_of-Within (some Json.null) = search plain_rules
  port_of-Within (some (Json.str p)) = search plain_rules
  port_of-Within (some _) = search plain_rules

  pub platform_of-Within : (d : JsonDict) → Within D I P IsPlain (platform_of {S = S} d)
  unfolding platform_of
  platform_of-Within d =
      search
        (
          plain_rules, required-Within, text_of-Within, text_or-Within, int_of-Within,
          requirements_of-Within,
        )
        depth 40

  pub recorded_platform-Within : (d : JsonDict) → Within D I P IsPlain (recorded_platform {S = S} d)
  unfolding recorded_platform
  recorded_platform-Within d = search (plain_rules, platform_of-Within, port_of-Within) depth 20

  pub pid_of-Within : (o : Option Json) → Within D I P IsPlain (pid_of {S = S} o)
  unfolding pid_of
  pid_of-Within none = search plain_rules
  pid_of-Within (some Json.null) = search plain_rules
  pid_of-Within (some (Json.num n)) = search plain_rules
  pid_of-Within (some (Json.bool b)) = search plain_rules
  pid_of-Within (some (Json.str s)) = search plain_rules
  pid_of-Within (some (Json.strs xs)) = search plain_rules
  pid_of-Within (some (Json.table fs ls)) = search plain_rules

module _ ⦃host : Env⦄ {D : Type 0} {I : Session → Type 0} {P : Event → Type 0} where
  pub exited-Within : (o : Option ℤ) → Within D I P IsPlain (exited o)
  unfolding exited
  exited-Within none = search plain_rules
  exited-Within (some code) = search plain_rules

  pub started_or_timeout-Within :
      (w : Waited (Unit {0}) (Unit {0})) → Within D I P IsPlain (started_or_timeout w)
  unfolding started_or_timeout
  started_or_timeout-Within (found u) = search plain_rules
  started_or_timeout-Within (expired u) = search plain_rules
