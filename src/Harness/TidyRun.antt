-- ===== src/Harness/TidyRun.antt =====
-- The methods of Harness that start, signal and wait for processes, and those of its metadata: they keep
-- each invariant that ignores the server.
use canokey_usbip.Prelude.{◌<◌, ℕ, zero, suc, String, Option, none, some, List, ℤ, pos, negsuc}
use canokey_usbip.Host.{
  Event, FilePath, Env, Exec, Exc, os_error, OsError, value_error, type_error, Json,
}
use canokey_usbip.Host.Calls
use canokey_usbip.Host.Plain.{IsPlain, Bounded, plain_rules}
use canokey_usbip.Host.Polling.{Probe, Waited, found, expired, poll_for}
use canokey_usbip.Host.Polling.Stays.{poll_for-Within}
use canokey_usbip.Platform.{Status}
use canokey_usbip.Harness.State.{Harness}
use canokey_usbip.Harness.Server.{
  int_of, pass_gone, pass_gone_or_foreign, write_state, list_failed, server_exited, check_server,
  server_waited, start_server, kill_quietly, killed, reap_or_kill, reap, probe_gone, check_gone,
  kill_if_expired, await_gone, reap_if_ended, reap_server, stop_recorded, no_pid, recorded_pid,
  stop_server,
}
use canokey_usbip.Harness.Trial.{
  Environment, device_environment, kill_test, end_test, known_version, launch_test, run_test,
}
use canokey_usbip.Harness.Metadata.{base_metadata, initial_metadata, save_metadata}
use canokey_usbip.Harness.Tidy.{
  Tidy, IsCalm, run_command-Tidy, git_value-Tidy, tool_version-Tidy, asserted-Tidy,
}

-- A process is waited for, or its group is signalled.
abbrev pub IsEnding : Event → Type 0
IsEnding (Event.wait pid seconds) = Unit
IsEnding (Event.wait_exit pid) = Unit
IsEnding (Event.killpg pid sig) = Unit
IsEnding _ = ⊥

module _ ⦃host : Env⦄ {D : Type 0} (c : Bounded D host) {I : Harness → Type 0} {P : Event → Type 0}
    (calm : (e : Event) → IsCalm e → P e) where
  poll_for-Tidy :
      {B A : Type 0} (probe : B → Exec Harness (Probe B A)) (pause limit : ℕ) (b : B)
      → 0 < pause
      → ((b : B) → Tidy D I P (probe b))
      → Tidy D I P (poll_for limit pause b probe)
  poll_for-Tidy probe pause limit b h tidy =
      poll_for-Within probe pause (calm _ tt) (calm _ tt) tidy c h limit b

  pub write_state-Tidy : (pid : ℕ) (port : Option String) → Tidy D I P (write_state pid port)
  unfolding write_state Calls.write_text
  write_state-Tidy pid port = search plain_rules depth 10

  list_failed-Tidy : (e : Exc) → IsPlain e → Tidy D I P (list_failed e)
  unfolding list_failed
  list_failed-Tidy (os_error k m) p = search plain_rules
  list_failed-Tidy (Exc.timeout_expired m) p = search plain_rules
  list_failed-Tidy e p = search (plain_rules, p)

  server_exited-Tidy : (o : Option ℤ) → Tidy D I P (server_exited o)
  unfolding server_exited
  server_exited-Tidy none = search plain_rules
  server_exited-Tidy (some c) = search plain_rules

  check_server-Tidy : (pid : ℕ) (u : Unit {0}) → Tidy D I P (check_server pid u)
  unfolding check_server Calls.poll
  check_server-Tidy pid u =
      search (plain_rules, server_exited-Tidy, run_command-Tidy, list_failed-Tidy) depth 30

  server_waited-Tidy : (w : Waited (Unit {0}) (Unit {0})) → Tidy D I P (server_waited w)
  unfolding server_waited
  server_waited-Tidy (found u) = search plain_rules
  server_waited-Tidy (expired u) = search plain_rules

  pass_gone-Tidy : (e : Exc) → IsPlain e → Tidy D I P (pass_gone e)
  unfolding pass_gone
  pass_gone-Tidy (os_error OsError.process_lookup m) p = search plain_rules
  pass_gone-Tidy (os_error k m) p = search plain_rules
  pass_gone-Tidy e p = search (plain_rules, p)

  pass_gone_or_foreign-Tidy : (e : Exc) → IsPlain e → Tidy D I P (pass_gone_or_foreign e)
  unfolding pass_gone_or_foreign
  pass_gone_or_foreign-Tidy (os_error OsError.process_lookup m) p = search plain_rules
  pass_gone_or_foreign-Tidy (os_error OsError.permission m) p = search plain_rules
  pass_gone_or_foreign-Tidy (os_error k m) p = search plain_rules
  pass_gone_or_foreign-Tidy e p = search (plain_rules, p)

  killed-Tidy : (o : Option ℤ) → Tidy D I P (killed o)
  unfolding killed
  killed-Tidy none = search plain_rules
  killed-Tidy (some c) = search plain_rules

  probe_gone-Tidy : (e : Exc) → IsPlain e → Tidy D I P (probe_gone e)
  unfolding probe_gone
  probe_gone-Tidy (os_error OsError.process_lookup m) p = search plain_rules
  probe_gone-Tidy (os_error k m) p = search plain_rules
  probe_gone-Tidy e p = search (plain_rules, p)

  check_gone-Tidy : (pid : ℕ) (u : Unit {0}) → Tidy D I P (check_gone pid u)
  unfolding check_gone Calls.probe
  check_gone-Tidy pid u = search (plain_rules, probe_gone-Tidy) depth 20

  no_pid-Tidy : (e : Exc) → IsPlain e → Tidy D I P (no_pid e)
  unfolding no_pid
  no_pid-Tidy (value_error m) p = search plain_rules
  no_pid-Tidy (type_error m) p = search plain_rules
  no_pid-Tidy e p = search (plain_rules, p)

  int_of-Tidy : (j : Option Json) → Tidy D I P (int_of j)
  unfolding int_of
  int_of-Tidy (some (Json.num n)) = search plain_rules
  int_of-Tidy (some (Json.bool b)) = search plain_rules
  int_of-Tidy (some (Json.str s)) = search plain_rules
  int_of-Tidy _ = search plain_rules

  pub recorded_pid-Tidy : Tidy D I P recorded_pid
  unfolding recorded_pid Calls.exists Calls.read_json
  recorded_pid-Tidy = search (plain_rules, int_of-Tidy, no_pid-Tidy) depth 30

  device_environment-Tidy :
      (o : Option FilePath) (e : Environment) → Tidy D I P (device_environment o e)
  unfolding device_environment Calls.read_text
  device_environment-Tidy none e = search plain_rules
  device_environment-Tidy (some d) e = search plain_rules depth 20

  known_version-Tidy : (o : Option String) → Tidy D I P (known_version o)
  unfolding known_version
  known_version-Tidy none = search plain_rules
  known_version-Tidy (some v) = search plain_rules

  pub base_metadata-Tidy : Tidy D I P base_metadata
  unfolding base_metadata Calls.utc_now
  base_metadata-Tidy = search (plain_rules, git_value-Tidy, tool_version-Tidy) depth 40

  pub initial_metadata-Tidy : Tidy D I P initial_metadata
  unfolding initial_metadata
  initial_metadata-Tidy = search (plain_rules, asserted-Tidy, base_metadata-Tidy) depth 20

  pub save_metadata-Tidy : Tidy D I P save_metadata
  unfolding save_metadata Calls.mkdir Calls.write_text
  save_metadata-Tidy = search plain_rules depth 20

  module _ (ends : (e : Event) → IsEnding e → P e) where
    kill_quietly-Tidy : (pid : ℕ) → Tidy D I P (kill_quietly pid)
    unfolding kill_quietly Calls.killpg
    kill_quietly-Tidy pid = search (plain_rules, pass_gone_or_foreign-Tidy) depth 10

    reap_or_kill-Tidy : (pid : ℕ) (o : Option ℤ) → Tidy D I P (reap_or_kill pid o)
    unfolding reap_or_kill Calls.wait
    reap_or_kill-Tidy pid (some c) = search plain_rules
    reap_or_kill-Tidy pid none = search (plain_rules, kill_quietly-Tidy, killed-Tidy) depth 10

    reap-Tidy : (pid : ℕ) → Tidy D I P (reap pid)
    unfolding reap Calls.wait
    reap-Tidy pid = search (plain_rules, reap_or_kill-Tidy) depth 10

    kill_if_expired-Tidy :
        (pid : ℕ) (w : Waited (Unit {0}) (Unit {0})) → Tidy D I P (kill_if_expired pid w)
    unfolding kill_if_expired
    kill_if_expired-Tidy pid (found u) = search plain_rules
    kill_if_expired-Tidy pid (expired u) = search (plain_rules, kill_quietly-Tidy)

    await_gone-Tidy : (pid : ℕ) → Tidy D I P (await_gone pid)
    unfolding await_gone
    await_gone-Tidy pid =
        search (plain_rules, poll_for-Tidy, check_gone-Tidy, kill_if_expired-Tidy) depth 10

    reap_if_ended-Tidy : (pid : ℕ) (o : Option ℤ) → Tidy D I P (reap_if_ended pid o)
    unfolding reap_if_ended Calls.wait_exit
    reap_if_ended-Tidy pid none = search plain_rules
    reap_if_ended-Tidy pid (some c) = search plain_rules

    reap_server-Tidy : (o : Option ℕ) → Tidy D I P (reap_server o)
    unfolding reap_server Calls.poll
    reap_server-Tidy none = search plain_rules
    reap_server-Tidy (some pid) = search (plain_rules, reap_if_ended-Tidy) depth 10

    stop_recorded-Tidy : (pid : ℤ) (server : Option ℕ) → Tidy D I P (stop_recorded pid server)
    unfolding stop_recorded Calls.killpg
    stop_recorded-Tidy (pos zero) server = search (plain_rules, reap_server-Tidy)
    stop_recorded-Tidy (pos (suc n)) server =
        search (plain_rules, pass_gone-Tidy, reap-Tidy, await_gone-Tidy, reap_server-Tidy) depth 20
    stop_recorded-Tidy (negsuc n) server = search plain_rules

    pub stop_server-Tidy : Tidy D I P stop_server
    unfolding stop_server
    stop_server-Tidy = search (plain_rules, recorded_pid-Tidy, stop_recorded-Tidy) depth 20

    kill_test-Tidy : (pid : ℕ) (o : Option ℤ) → Tidy D I P (kill_test pid o)
    unfolding kill_test Calls.killpg Calls.wait_exit
    kill_test-Tidy pid none = search plain_rules depth 10
    kill_test-Tidy pid (some c) = search plain_rules

    end_test-Tidy : (pid : ℕ) (o : Option ℤ) → Tidy D I P (end_test pid o)
    unfolding end_test Calls.killpg Calls.wait
    end_test-Tidy pid none = search (plain_rules, kill_test-Tidy) depth 10
    end_test-Tidy pid (some c) = search plain_rules

  module _
      (starts : (argv : List String) (cwd : Option FilePath) (added : List (String × String))
        → P (Event.popen argv cwd added)) where
    module _ (served : (h : Harness) (pid : ℕ) → I h → I (record h { server = some pid })) where
      pub start_server-Tidy : Tidy D I P start_server
      unfolding start_server Calls.mkdir Calls.open_log Calls.popen
      start_server-Tidy =
          search
            (
              plain_rules, asserted-Tidy, write_state-Tidy, poll_for-Tidy, check_server-Tidy,
              server_waited-Tidy,
            )
            depth 60

    module _ (ends : (e : Event) → IsEnding e → P e) where
      pub run_test-Tidy : (ready : Status) → Tidy D I P (run_test ready)
      unfolding run_test launch_test Calls.open_log Calls.popen Calls.wait
      run_test-Tidy ready =
          search
            (plain_rules, asserted-Tidy, device_environment-Tidy, known_version-Tidy, end_test-Tidy)
            depth 60
