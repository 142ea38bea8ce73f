-- ===== src/Rpc.antt =====
-- internal/rpc/protocol.go: the messages between the daemon and its clients. Texts of JSON are an
-- abstract type `R`.
pub mod Server
pub mod Serving
use torrcli.Base.{ℤ, negsuc, Bool, String, Option, List, Error}
use torrcli.Model.{TorrentId, FilePriority, TorrentSnapshot, TorrentDetails}

abbrev pub version : String
version = "2.0"

pub record Request (R : Type 0) : Type 0 where
  pub jsonrpc : String
  -- `none` is an ID of length 0, which is one that the message does not have.
  pub id : Option R
  pub method : String
  pub params : R

-- The text of an error, in its parts.
pub data Message : Type 0 where
  text : String → Message
  unknown_method : String → Message
  failed : String → Error → Message

pub record RpcError : Type 0 where
  pub code : ℤ
  pub message : Message

-- What a handler returns: a result or an error, never both.
pub data Reply (A : Type 0) : Type 0 where
  reply : A → Reply A
  refuse : RpcError → Reply A

pub record Response (R A : Type 0) : Type 0 where
  pub jsonrpc : String
  pub id : R
  pub body : Reply A

abbrev pub code_parse_error : ℤ
code_parse_error = negsuc 32699

abbrev pub code_invalid_request : ℤ
code_invalid_request = negsuc 32599

abbrev pub code_method_not_found : ℤ
code_method_not_found = negsuc 32600

abbrev pub code_invalid_params : ℤ
code_invalid_params = negsuc 32601

abbrev pub code_internal_error : ℤ
code_internal_error = negsuc 32602

abbrev pub code_operation_failed : ℤ
code_operation_failed = negsuc 31999

pub record AddTorrentParams : Type 0 where
  pub sequential : Bool
  pub paused : Bool
  pub source : String
  pub save_path : String

pub record MoveTorrentParams : Type 0 where
  pub id : TorrentId
  pub offset : ℤ

pub record RemoveTorrentParams : Type 0 where
  pub id : TorrentId
  pub delete_data : Bool

pub record SetFilePriorityParams : Type 0 where
  pub id : TorrentId
  pub file_index : ℤ
  pub priority : FilePriority

pub record SetSequentialParams : Type 0 where
  pub id : TorrentId
  pub enabled : Bool
