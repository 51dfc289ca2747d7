-- ===== src/Gs2/Opcodes/Numbers.antt =====
-- reborn_protocol/gs2/opcodes.py: the opcodes and their numbers.
use reborn_protocol.Base.{◌≡◌, refl, some}
use reborn_protocol.Gs2.Opcodes.{
  Op, op_none, op_set_index, op_set_index_true, op_or, op_if, op_and, op_call, op_ret, op_sleep,
  op_cmd_call, op_jmp, op_waitfor, op_type_number, op_type_string, op_type_var, op_type_array,
  op_type_true, op_type_false, op_type_null, op_pi, op_copy_last_op, op_swap_last_ops, op_index_dec,
  op_conv_to_float, op_conv_to_string, op_member_access, op_conv_to_object, op_array_end,
  op_array_new, op_setarray, op_inline_new, op_makevar, op_new_object, op_obj_from_str,
  op_inline_conditional, op_reg_store, op_reg_load, op_conv_to_property, op_assign,
  op_func_params_end, op_inc, op_dec, op_unknown_54, op_add, op_sub, op_mul, op_div, op_mod, op_pow,
  op_unknown_66, op_unknown_67, op_not, op_unarysub, op_eq, op_neq, op_lt, op_gt, op_lte, op_gte,
  op_bwo, op_bwa, op_bwx, op_bwi, op_in_range, op_in_obj, op_obj_index, op_obj_type, op_format,
  op_int, op_abs, op_random, op_sin, op_cos, op_arctan, op_exp, op_log, op_min, op_max, op_getangle,
  op_getdir, op_vecx, op_vecy, op_obj_indices, op_obj_link, op_bw_leftshift, op_bw_rightshift,
  op_char, op_obj_compare, op_obj_trim, op_obj_length, op_obj_pos, op_join, op_obj_charat,
  op_obj_substr, op_obj_starts, op_obj_ends, op_obj_tokenize, op_translate, op_obj_positions,
  op_dynamic_add, op_obj_size, op_array, op_array_assign, op_array_multidim,
  op_array_multidim_assign, op_obj_subarray, op_obj_addstring, op_obj_deletestring,
  op_obj_removestring, op_obj_replacestring, op_obj_insertstring, op_obj_clear,
  op_array_new_multidim, op_with, op_withend, op_foreach, op_this, op_thiso, op_player, op_playero,
  op_level, op_temp, op_params, value, op_of,
}

-- Each opcode is found by its number, so no two have the same number.
op_of-value : (op : Op) → op_of (value op) ≡ some op
unfolding op_of value
op_of-value op_none = refl
op_of-value op_set_index = refl
op_of-value op_set_index_true = refl
op_of-value op_or = refl
op_of-value op_if = refl
op_of-value op_and = refl
op_of-value op_call = refl
op_of-value op_ret = refl
op_of-value op_sleep = refl
op_of-value op_cmd_call = refl
op_of-value op_jmp = refl
op_of-value op_waitfor = refl
op_of-value op_type_number = refl
op_of-value op_type_string = refl
op_of-value op_type_var = refl
op_of-value op_type_array = refl
op_of-value op_type_true = refl
op_of-value op_type_false = refl
op_of-value op_type_null = refl
op_of-value op_pi = refl
op_of-value op_copy_last_op = refl
op_of-value op_swap_last_ops = refl
op_of-value op_index_dec = refl
op_of-value op_conv_to_float = refl
op_of-value op_conv_to_string = refl
op_of-value op_member_access = refl
op_of-value op_conv_to_object = refl
op_of-value op_array_end = refl
op_of-value op_array_new = refl
op_of-value op_setarray = refl
op_of-value op_inline_new = refl
op_of-value op_makevar = refl
op_of-value op_new_object = refl
op_of-value op_obj_from_str = refl
op_of-value op_inline_conditional = refl
op_of-value op_reg_store = refl
op_of-value op_reg_load = refl
op_of-value op_conv_to_property = refl
op_of-value op_assign = refl
op_of-value op_func_params_end = refl
op_of-value op_inc = refl
op_of-value op_dec = refl
op_of-value op_unknown_54 = refl
op_of-value op_add = refl
op_of-value op_sub = refl
op_of-value op_mul = refl
op_of-value op_div = refl
op_of-value op_mod = refl
op_of-value op_pow = refl
op_of-value op_unknown_66 = refl
op_of-value op_unknown_67 = refl
op_of-value op_not = refl
op_of-value op_unarysub = refl
op_of-value op_eq = refl
op_of-value op_neq = refl
op_of-value op_lt = refl
op_of-value op_gt = refl
op_of-value op_lte = refl
op_of-value op_gte = refl
op_of-value op_bwo = refl
op_of-value op_bwa = refl
op_of-value op_bwx = refl
op_of-value op_bwi = refl
op_of-value op_in_range = refl
op_of-value op_in_obj = refl
op_of-value op_obj_index = refl
op_of-value op_obj_type = refl
op_of-value op_format = refl
op_of-value op_int = refl
op_of-value op_abs = refl
op_of-value op_random = refl
op_of-value op_sin = refl
op_of-value op_cos = refl
op_of-value op_arctan = refl
op_of-value op_exp = refl
op_of-value op_log = refl
op_of-value op_min = refl
op_of-value op_max = refl
op_of-value op_getangle = refl
op_of-value op_getdir = refl
op_of-value op_vecx = refl
op_of-value op_vecy = refl
op_of-value op_obj_indices = refl
op_of-value op_obj_link = refl
op_of-value op_bw_leftshift = refl
op_of-value op_bw_rightshift = refl
op_of-value op_char = refl
op_of-value op_obj_compare = refl
op_of-value op_obj_trim = refl
op_of-value op_obj_length = refl
op_of-value op_obj_pos = refl
op_of-value op_join = refl
op_of-value op_obj_charat = refl
op_of-value op_obj_substr = refl
op_of-value op_obj_starts = refl
op_of-value op_obj_ends = refl
op_of-value op_obj_tokenize = refl
op_of-value op_translate = refl
op_of-value op_obj_positions = refl
op_of-value op_dynamic_add = refl
op_of-value op_obj_size = refl
op_of-value op_array = refl
op_of-value op_array_assign = refl
op_of-value op_array_multidim = refl
op_of-value op_array_multidim_assign = refl
op_of-value op_obj_subarray = refl
op_of-value op_obj_addstring = refl
op_of-value op_obj_deletestring = refl
op_of-value op_obj_removestring = refl
op_of-value op_obj_replacestring = refl
op_of-value op_obj_insertstring = refl
op_of-value op_obj_clear = refl
op_of-value op_array_new_multidim = refl
op_of-value op_with = refl
op_of-value op_withend = refl
op_of-value op_foreach = refl
op_of-value op_this = refl
op_of-value op_thiso = refl
op_of-value op_player = refl
op_of-value op_playero = refl
op_of-value op_level = refl
op_of-value op_temp = refl
op_of-value op_params = refl
