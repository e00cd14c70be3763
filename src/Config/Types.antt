-- ===== src/Config/Types.antt =====
-- The data of include/config.h. A `config::App *` is the place of the app in the list of all apps
-- that were allocated with `new`, which stands for the heap; no app is freed before the end.
use Prim.Native.String.{String}
use nexer.Prelude.{ℕ, Bool, false, Option, none, List, []}
use nexer.Prelude.Int.{ℤ, pos}

-- `Logger::Level` of include/logger.h.
pub data Level : Type 0 where
  trace debug info warn error fatal critical : Level

pub record Command : Type 0 where
  pub file : String
  pub args : List String
  pub env : List String
  pub cwd : String
  pub timeout : ℤ

pub record App : Type 0 where
  pub name : String
  pub command : Command
  pub checker : Option Command
  pub max_start_time : ℤ
  pub preamble : List ℕ
  pub tags : List String

pub record Upstream : Type 0 where
  pub host : String
  pub port : ℤ
  pub connect_timeout : ℤ
  pub app : Option ℕ
  pub tags : List String

pub record Proxy : Type 0 where
  pub port : ℤ
  pub upstream : Upstream

pub record Admin : Type 0 where
  pub port : ℤ

pub record Logger : Type 0 where
  pub file : String
  pub level : Level

pub data DummyType : Type 0 where
  udp tcp http : DummyType

pub record Dummy : Type 0 where
  pub type : DummyType
  pub port : ℤ
  pub echo : Bool

pub record Config : Type 0 where
  pub admin : Admin
  pub logger : Logger
  pub proxies : List Proxy
  pub heap : List App
  pub apps : List ℕ
  pub app_map : List (String × ℕ)
  pub dummies : List Dummy

abbrev pub new_command : Command
new_command = record { file = ""; args = []; env = []; cwd = ""; timeout = pos 0 }

abbrev pub new_app : App
new_app = record {
  name = "";
  command = new_command;
  checker = none;
  max_start_time = pos 0;
  preamble = [];
  tags = [];
}

abbrev pub new_proxy : Proxy
new_proxy = record {
  port = pos 0;
  upstream = record { host = ""; port = pos 0; connect_timeout = pos 30000; app = none; tags = [] };
}

abbrev pub new_dummy : Dummy
new_dummy = record { type = tcp; port = pos 0; echo = false }

-- The constructor `Config::Config`.
abbrev pub new_config : Config
new_config = record {
  admin = record { port = pos 19500 };
  logger = record { file = ""; level = info };
  proxies = [];
  heap = [];
  apps = [];
  app_map = [];
  dummies = [];
}
