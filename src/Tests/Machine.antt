-- ===== src/Tests/Machine.antt =====
-- A host that answers every call at once: each program works, nothing is busy but the lock, and the
-- clock moves only when the runner sleeps.
use canokey_usbip.Prelude.{ℕ, ◌+◌, ◌≤◌, true, none, some, [], ◌∷◌, pos, arith}
use canokey_usbip.Host.{
  Event, sleep, History, blocking_io, Env, IsClock, done, failed, completed, loaded,
}

unfoldable pub elapsed : History → ℕ
elapsed [] = 0
elapsed (sleep d ∷ t) = elapsed t + d
elapsed (e ∷ t) = elapsed t

abbrev pub busy : Env
busy = record {
  run =
      λ argv cwd timeout log t. completed (record { returncode = pos 0; stdout = ""; stderr = "" });
  popen = λ argv cwd added t. done 7;
  poll = λ pid t. none;
  wait = λ pid seconds t. some (pos 0);
  wait_exit = λ pid t. pos 0;
  killpg = λ pid sig t. done tt;
  kill = λ pid sig t. done tt;
  probe = λ pid t. done tt;
  monotonic = elapsed;
  utc_now = λ t. "20260101T000000Z";
  exists = λ p t. true;
  is_dir = λ p t. true;
  is_file = λ p t. true;
  resolve = λ p t. done p;
  glob = λ p pattern' t. [];
  read_text = λ p t. done "";
  read_json = λ p t. loaded [];
  read_mappings = λ p t. loaded [];
  write_text = λ p c t. done tt;
  append_text = λ p s t. done tt;
  open_log = λ p t. done tt;
  mkdir = λ p t. done tt;
  copytree = λ p q ignore t. done tt;
  flock = λ p t. failed blocking_io "busy";
  which = λ name t. true;
  pcsclite_found = λ t. true;
  pcsclite_loads = λ t. true;
  establish = λ t. 0;
  list_length = λ t. (0, 0);
  list_buffer = λ length t. (0, []);
  decode = λ raw. "";
  euid = 0;
  is_linux = true;
  environ = λ name. none;
  kernel = "6.1";
}

elapsed-forward : (e : Event) (t : History) → elapsed t ≤ elapsed (e ∷ t)
unfolding elapsed
elapsed-forward (sleep d) t = omega arith
elapsed-forward e t = omega arith

elapsed-slept : (d : ℕ) (t : History) → elapsed t + d ≤ elapsed (sleep d ∷ t)
unfolding elapsed
elapsed-slept d t = omega arith

pub busy-IsClock : IsClock busy
unfolding elapsed
busy-IsClock = record { forward = elapsed-forward; slept = elapsed-slept }
