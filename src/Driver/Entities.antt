-- ===== src/Driver/Entities.antt =====
-- driver/.../domain/entities/RedirectInfo.h: the records that the kernel driver keeps, with the
-- pool tags and the NTSTATUS codes of its files. A LIST_ENTRY is the place in a list.
use tcp_redirector.Prelude.{ℕ, List, Bool, ltb, ◌^◌, false, replicate}

abbrev pub max_process_path_length : ℕ
max_process_path_length = 260

abbrev pub max_process_name_length : ℕ
max_process_name_length = 64

abbrev pub max_redirect_queue_size : ℕ
max_redirect_queue_size = 4096

pub data RedirectStatus : Type 0 where
  pending acknowledged completed failed timed_out : RedirectStatus

pub record RedirectInfo : Type 0 where
  pub redirect_id : ℕ
  pub process_id : ℕ
  pub process_path : List ℕ
  pub original_address_v4 : ℕ
  pub original_address_v6 : List ℕ
  pub original_port : ℕ
  pub redirect_local_port : ℕ
  pub is_ipv6 : Bool
  pub status : RedirectStatus
  pub timestamp : ℕ
  pub flow_handle : ℕ

pub record ProcessIdentity : Type 0 where
  pub process_id : ℕ
  pub process_name : List ℕ
  pub process_path : List ℕ

pub data RuleAction : Type 0 where
  permit redirect block : RuleAction

pub record RuleEntry : Type 0 where
  pub rule_id : ℕ
  pub action : RuleAction
  pub is_wildcard : Bool
  pub is_path_rule : Bool
  pub pattern : List ℕ
  pub priority : ℕ

-- The tags 'nDrT', 'rDrT' and 'lRrT' of ExAllocatePool2 and ExFreePoolWithTag.
pub data PoolTag : Type 0 where
  tag_ndrt tag_rdrt tag_lrrt : PoolTag

-- A block of non-paged pool, with the tag that it was allocated with.
pub record Block (A : Type 0) : Type 0 where
  pub tag : PoolTag
  pub body : A

-- A call of ExFreePoolWithTag: the block, and the tag that the call names.
pub record Free (A : Type 0) : Type 0 where
  pub freed : Block A
  pub named : PoolTag

abbrev pub status_success : ℕ
status_success = 0

abbrev pub status_invalid_parameter : ℕ
status_invalid_parameter = 0xC000000D

abbrev pub status_invalid_device_request : ℕ
status_invalid_device_request = 0xC0000010

abbrev pub status_buffer_too_small : ℕ
status_buffer_too_small = 0xC0000023

abbrev pub status_insufficient_resources : ℕ
status_insufficient_resources = 0xC000009A

abbrev pub status_not_found : ℕ
status_not_found = 0xC0000225

-- NT_SUCCESS: the code, read as a LONG, is not negative.
abbrev pub nt_success : ℕ → Bool
nt_success status = ltb status (2 ^ 31)

-- RtlZeroMemory on a REDIRECT_INFO.
abbrev pub zero_info : RedirectInfo
zero_info = record {
  redirect_id = 0;
  process_id = 0;
  process_path = replicate max_process_path_length 0;
  original_address_v4 = 0;
  original_address_v6 = replicate 8 0;
  original_port = 0;
  redirect_local_port = 0;
  is_ipv6 = false;
  status = RedirectStatus.pending;
  timestamp = 0;
  flow_handle = 0;
}
