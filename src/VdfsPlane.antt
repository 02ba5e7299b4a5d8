-- ===== src/VdfsPlane.antt =====
-- crates/pcsuite-core/src/vdfs.rs: moving file bytes over the vdfs plane. The server answers one request
-- per connection; a connection is the bytes that arrive on it, and a client's socket is the list of
-- reads it returns (an empty read is EOF, the end of the list a read timeout).
pub mod Server
pub mod Client
pub mod Loopback
mod Tests
use pcsuite_rs.Base.{ℕ, Bool, List, Option}
use pcsuite_rs.Base.Wire.{Bytes}

-- What `std::fs` says of a path. `modified` is the modification time in seconds since the epoch, where
-- the platform gives one behind the epoch.
pub record Metadata : Type 0 where
  pub is_dir : Bool
  pub len : ℕ
  pub modified : Option ℕ

pub data FileType : Type 0 where
  dir symlink file unknown : FileType

pub record FileSystem : Type 0 where
  pub metadata : Bytes → Option Metadata
  pub read_dir : Bytes → Option (List (Bytes × FileType))
  -- The bytes of a file that can be opened and read.
  pub contents : Bytes → Option Bytes
