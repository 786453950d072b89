-- ===== src/Engine/Tests/Setup.antt =====
-- An engine with a trivial validator and a data plane that installs what it is told, and states
-- of it that the tests start from. The data plane's state is the configuration it has installed.
use nfvis.Prelude.{ℕ, String, Bool, true, false, none, some, List, [], ◌∷◌, refl}
use nfvis.Model.{Config, SystemConfig, LoginUserConfig}
use nfvis.Engine.Types.{Stmt, Session, CommitOpts, initial, LockInfo, ConfirmedInfo, Revision}
use nfvis.Engine.Db.{Db}
use nfvis.Engine.State.{Env, Engine}
use nfvis.Engine.Healthy.{IsHealthy}

abbrev pub setup : Env Config Config
setup = record {
  encode = λ c. c;
  decode = λ c. some c;
  apply = λ old new s. (new, none);
  validate = λ c. [];
  merge = λ c patch. some patch;
  images = none;
  topology = none;
  time_synced = none;
  lock_idle_ttl = 100;
}

abbrev pub alice : Session
alice = record { user = "alice"; source = "ssh" }

abbrev pub bob : Session
bob = record { user = "bob"; source = "console" }

abbrev pub no_config : Config
no_config = record {
  system = none;
  interfaces = [];
  bonds = [];
  virtual_switches = [];
  vrfs = [];
  acls = [];
  nat = none;
  port_mirroring = [];
  qos_policies = [];
  resource_pools = none;
  vpp = none;
  protocols = none;
  virtual_machine_functions = [];
  container_functions = [];
  annotations = [];
}

abbrev pub system_with : List LoginUserConfig → SystemConfig
system_with users = record {
  kernel = none;
  hostname = "";
  timezone = "";
  ntp = [];
  dns_servers = [];
  management = none;
  login = some (record { users = users; classes = []; password_policy = none });
  syslog = none;
  api = none;
  idle_timeout_minutes = 0;
  health = none;
}

-- A configuration with the local users `users`.
abbrev pub with_login : List LoginUserConfig → Config
with_login users = record no_config { system = some (system_with users) }

abbrev pub root_user : String → LoginUserConfig
root_user hash = record { name = "root"; class = "super-user"; password_hash = hash }

abbrev pub one_user : Config
one_user = with_login (root_user "x" ∷ [])

abbrev pub no_fault : Stmt → Bool
no_fault s = false

pub no_fault-IsHealthy : IsHealthy no_fault
no_fault-IsHealthy = record {
  latest = refl;
  revision = refl;
  appended = refl;
  listed = refl;
  pruned = refl;
  acquired = refl;
  refreshed = refl;
  released = refl;
  lock_read = refl;
  pending = refl;
  pending_read = refl;
  cleared = refl;
  audited = refl;
  audit_read = refl;
}

abbrev pub first_row : Revision Config
first_row = record {
  rev = 1;
  committed_at = 0;
  message = initial;
  user = "system";
  config_json = no_config;
}

-- The tables of a new engine.
abbrev pub tables : Db Config
tables = record {
  revisions = first_row ∷ [];
  seq = 1;
  lock = none;
  confirmed = none;
  audit = [];
  fault = no_fault;
}

abbrev pub alice_lock : LockInfo
alice_lock = record { holder = "alice@ssh"; acquired_at = 5; last_activity = 5 }

-- `alice` edits, and has changed the candidate.
abbrev pub editing : Engine Config Config
editing = record {
  store = record tables { lock = some alice_lock };
  candidate = some one_user;
  holder = "alice@ssh";
  dirty = true;
  timer = none;
  substrate = no_config;
  events = [];
  commits = [];
}

abbrev pub options : ℕ → CommitOpts
options minutes = record { confirmed_minutes = minutes; message = "m"; allow_no_super_user = false }

abbrev pub pending : ConfirmedInfo
pending = record { base_rev = 1; deadline = 600; holder = "alice@ssh" }

-- Revision 2 is in force, and waits for its confirmation.
abbrev pub waiting : Engine Config Config
waiting = record editing {
  store = record tables {
    revisions = record first_row { rev = 2; config_json = one_user } ∷ first_row ∷ [];
    seq = 2;
    lock = some alice_lock;
    confirmed = some pending;
  };
  dirty = false;
  timer = some 600;
  substrate = one_user;
}
