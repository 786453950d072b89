-- ===== src/Model/System.antt =====
-- The `system` subtree of the configuration (internal/model/model.go). A Go pointer is an `Option`,
-- a slice a list, a map an association list, and a number a natural number.
use nfvis.Prelude.{ℕ, String, Bool, Option, List}

pub record KernelConfig : Type 0 where
  pub nmi_watchdog : Option Bool
  pub transparent_hugepages : String
  pub iommu : String
  pub low_latency : Bool
  pub tuned_profile : String
  pub params : List String

pub record NtpServer : Type 0 where
  pub server : String
  pub prefer : Bool

pub record MgmtConfig : Type 0 where
  pub interface : String
  pub address : String
  pub gateway : String

pub record LoginUserConfig : Type 0 where
  pub name : String
  pub password_hash : String
  pub class : String

pub record ClassDef : Type 0 where
  pub name : String
  pub allow : List String
  pub deny : List String

pub record PasswordPolicy : Type 0 where
  pub min_length : ℕ
  pub complexity : Bool
  pub expire_days : ℕ
  pub lockout_threshold : ℕ
  pub lockout_minutes : ℕ

pub record SystemLogin : Type 0 where
  pub users : List LoginUserConfig
  pub classes : List ClassDef
  pub password_policy : Option PasswordPolicy

pub record SyslogConfig : Type 0 where
  pub remote_host : String
  pub remote_port : ℕ
  pub facility : String
  pub severity : String
  pub level : String
  pub retention_days : ℕ
  pub max_size_mb : ℕ

pub record ApiConfig : Type 0 where
  pub port : ℕ
  pub token_ttl_minutes : ℕ
  pub max_sessions : ℕ
  pub cert_file : String
  pub key_file : String
  pub tls_self_signed : Bool

pub record HealthThresholds : Type 0 where
  pub cpu_temp_celsius : ℕ
  pub disk_temp_celsius : ℕ
  pub disk_used_percent : ℕ

pub record SystemConfig : Type 0 where
  pub kernel : Option KernelConfig
  pub hostname : String
  pub timezone : String
  pub ntp : List NtpServer
  pub dns_servers : List String
  pub management : Option MgmtConfig
  pub login : Option SystemLogin
  pub syslog : Option SyslogConfig
  pub api : Option ApiConfig
  pub idle_timeout_minutes : ℕ
  pub health : Option HealthThresholds
