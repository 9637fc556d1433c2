-- ===== src/Spi/Session.antt =====
-- What PostgreSQL keeps of the log: the settings in force, which SET LOCAL makes and a rollback
-- undoes, the subtransactions that are open, and the statement timer, which no rollback touches.
-- While a subtransaction is open, starting or committing a transaction leaves it open.
use allgres_agent.Base.{ℕ, Bool, true, false, Option, none, some, List, [], ◌∷◌}
use allgres_agent.Text.{Bytes}
use allgres_agent.Spi.{
  Stmt, assume_worker_role, set_role, set_search_path, set_read_only, set_check_bodies, set_timeout,
  begin_local_execution, Answer, truth, value, nothing, failed, answered, raises, Event, begins,
  commits, enters, releases, rolls_back, asked, arms, disarms, fixes_role, restores_role, Log,
}

pub data Role : Type 0 where
  superuser worker : Role
  named : Bytes → Role

pub record Settings : Type 0 where
  pub role : Role
  pub fixed : Bool
  pub temp_path : Bool
  pub read_only : Bool
  pub check_bodies : Bool
  pub timeout : Option ℕ
  pub local_execution : Bool

pub record Session : Type 0 where
  pub settings : Settings
  pub saved : List Settings
  pub timer : Option ℕ

abbrev pub fresh : Settings
fresh = record {
  role = superuser;
  fixed = false;
  temp_path = false;
  read_only = false;
  check_bodies = false;
  timeout = none;
  local_execution = false;
}

abbrev pub initial : Session
initial = record { settings = fresh; saved = []; timer = none }

-- The effect of a statement that succeeded.
abbrev pub effect : {V : Type 0} → Stmt V → Settings → Settings
effect (set_role r) s = record s { role = named r }
effect set_search_path s = record s { temp_path = true }
effect set_read_only s = record s { read_only = true }
effect set_check_bodies s = record s { check_bodies = true }
effect (set_timeout n) s = record s { timeout = some n }
effect (begin_local_execution table id) s = record s { local_execution = true }
effect _ s = s

abbrev pub assumed : {V : Type 0} → Answer V → Settings → Settings
assumed (truth true) s = record s { role = worker }
assumed _ s = s

abbrev pub succeeded : {V : Type 0} → Stmt V → Answer V → Settings → Settings
succeeded assume_worker_role a s = assumed a s
succeeded st (failed e) s = s
succeeded st (truth b) s = effect st s
succeeded st (value v) s = effect st s
succeeded st nothing s = effect st s

abbrev pub outside : List Settings → Session → Session
outside [] s = record s { settings = fresh }
outside (x ∷ xs) s = s

abbrev pub leave : List Settings → Session → Session
leave [] s = s
leave (x ∷ xs) s = record s { saved = xs }

abbrev pub undo : List Settings → Session → Session
undo [] s = s
undo (x ∷ xs) s = record s { settings = x; saved = xs }

abbrev pub after : {V : Type 0} → Event V → Session → Session
after begins s = outside s.saved s
after commits s = outside s.saved s
after enters s = record s { saved = s.settings ∷ s.saved }
after releases s = leave s.saved s
after rolls_back s = undo s.saved s
after (asked st (answered a)) s = record s { settings = succeeded st a s.settings }
after (asked st (raises e)) s = s
after (arms n) s = record s { timer = some n }
after disarms s = record s { timer = none }
after fixes_role s = record s { settings = record (s.settings) { fixed = true } }
after restores_role s = record s { settings = record (s.settings) { fixed = false } }

abbrev pub session : {V : Type 0} → Log V → Session
session [] = initial
session (e ∷ t) = after e (session t)
