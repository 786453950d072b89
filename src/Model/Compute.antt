-- ===== src/Model/Compute.antt =====
-- Resource pools, VPP, virtual machines and containers (internal/model/model.go).
use nfvis.Prelude.{ℕ, String, Bool, Option, List}

pub record HugePool : Type 0 where
  pub page_size : String
  pub count : ℕ

pub record NumaNode : Type 0 where
  pub node : ℕ
  pub cores : List ℕ

pub record CpuSetup : Type 0 where
  pub isolated_cores : List ℕ
  pub numa : List NumaNode

pub record ResourcePool : Type 0 where
  pub hugepages : List HugePool
  pub cpu : Option CpuSetup

pub record VppCpu : Type 0 where
  pub main_core : ℕ
  pub corelist_workers : String
  pub workers_per_numa : ℕ

pub record VppMemory : Type 0 where
  pub main_heap_size : String
  pub buffers_per_numa : ℕ
  pub hugepage_preference : String

pub record VppDevDefault : Type 0 where
  pub rx_queues : ℕ
  pub tx_queues : ℕ
  pub rx_descriptors : ℕ
  pub tx_descriptors : ℕ

pub record VppDevOverride : Type 0 where
  pub interface : String
  pub rx_queues : ℕ
  pub tx_queues : ℕ
  pub rx_descriptors : ℕ
  pub tx_descriptors : ℕ

pub record VppDpdk : Type 0 where
  pub dev : VppDevDefault
  pub per_dev : List VppDevOverride
  pub uio_driver : String

pub record VppPlugin : Type 0 where
  pub name : String
  pub state : String

pub record VppConfig : Type 0 where
  pub cpu : Option VppCpu
  pub memory : Option VppMemory
  pub dpdk : Option VppDpdk
  pub plugins : List VppPlugin

pub record VmCpu : Type 0 where
  pub count : ℕ
  pub pin : Option Bool

pub record VmMemory : Type 0 where
  pub size_mb : ℕ
  pub hugepage_size : String
  pub numa_node : Option ℕ
  pub backing : String

pub record VmDisk : Type 0 where
  pub name : String
  pub size_gb : ℕ
  pub image : String

pub record SriovBind : Type 0 where
  pub physical_interface : String
  pub vf_id : ℕ

pub record VnfInterface : Type 0 where
  pub name : String
  pub type : String
  pub virtual_switch : String
  pub mac : String
  pub vlan : ℕ
  pub sriov : Option SriovBind

pub record CloudInit : Type 0 where
  pub user_data : String
  pub ssh_keys : List String
  pub hostname : String

pub record VmFunction : Type 0 where
  pub name : String
  pub description : String
  pub image : String
  pub vcpu : VmCpu
  pub memory : VmMemory
  pub disks : List VmDisk
  pub interfaces : List VnfInterface
  pub cloud_init : Option CloudInit
  pub serial_console : Option Bool
  pub autostart : Bool

pub record ContainerFunction : Type 0 where
  pub name : String
  pub description : String
  pub image : String
  pub vcpu : ℕ
  pub memory_mb : ℕ
  pub interfaces : List VnfInterface
  pub env : List (String × String)
  pub command : String
  pub args : List String
  pub restart_policy : String
  pub autostart : Bool
