-- ===== src/Unwind/Callbacks.antt =====
-- src/unwind_libunwind.c: the callbacks that do not do anything, and the messages of an error.
use libdw_bcc.Prelude.{ℕ, ℤ, pos, negsuc, neg, ◌==◌, Option, none, some, if◌then◌else◌}

-- UNW_EUNSPEC, UNW_EBADREG, UNW_EINVAL and UNW_ENOINFO of libunwind.
abbrev pub unw_eunspec : ℕ
unw_eunspec = 1

abbrev pub unw_ebadreg : ℕ
unw_ebadreg = 3

abbrev pub unw_einval : ℕ
unw_einval = 8

abbrev pub unw_enoinfo : ℕ
unw_enoinfo = 10

-- What goes to stderr.
pub data Message : Type 0 where
  put_unwind_info_called : Message
  access_fpreg_unsupported : Message
  resume_unsupported : Message
  get_proc_name_unsupported : Message
  only_local : Message
  unspecified : Message
  register_unavailable : Message

-- put_unwind_info
abbrev pub put_unwind_info : Message
put_unwind_info = put_unwind_info_called

-- get_dyn_info_list_addr
abbrev pub get_dyn_info_list_addr : ℤ
get_dyn_info_list_addr = neg unw_enoinfo

-- access_fpreg, resume and get_proc_name: the result, and what is printed.
abbrev pub access_fpreg : ℤ × Message
access_fpreg = (neg unw_einval, access_fpreg_unsupported)

abbrev pub resume : ℤ × Message
resume = (neg unw_einval, resume_unsupported)

abbrev pub get_proc_name : ℤ × Message
get_proc_name = (neg unw_einval, get_proc_name_unsupported)

-- display_error
abbrev pub display_error : ℤ → Option Message
display_error (pos n) =
    if n == unw_einval
    then some only_local
    else if n == unw_eunspec
    then some unspecified
    else if n == unw_ebadreg
    then some register_unavailable
    else none
display_error (negsuc n) = none
