-- ===== src/Gs2/Opcodes.antt =====
-- reborn_protocol/gs2/opcodes.py: the opcodes and the sets of those that carry an operand.
pub mod Numbers
use reborn_protocol.Base.{
  ℕ, List, [], ◌∷◌, Bool, true, false, Option, none, some, ◌==◌, if◌then◌else◌,
}

-- class Op
pub data Op : Type 0 where
  op_none op_set_index op_set_index_true op_or op_if op_and op_call op_ret op_sleep op_cmd_call
        op_jmp op_waitfor op_type_number op_type_string op_type_var op_type_array op_type_true
        op_type_false op_type_null op_pi op_copy_last_op op_swap_last_ops op_index_dec
        op_conv_to_float op_conv_to_string op_member_access op_conv_to_object op_array_end
        op_array_new op_setarray op_inline_new op_makevar op_new_object op_obj_from_str
        op_inline_conditional op_reg_store op_reg_load op_conv_to_property op_assign
        op_func_params_end op_inc op_dec op_unknown_54 op_add op_sub op_mul op_div op_mod op_pow
        op_unknown_66 op_unknown_67 op_not op_unarysub op_eq op_neq op_lt op_gt op_lte op_gte op_bwo
        op_bwa op_bwx op_bwi op_in_range op_in_obj op_obj_index op_obj_type op_format op_int op_abs
        op_random op_sin op_cos op_arctan op_exp op_log op_min op_max op_getangle op_getdir op_vecx
        op_vecy op_obj_indices op_obj_link op_bw_leftshift op_bw_rightshift op_char op_obj_compare
        op_obj_trim op_obj_length op_obj_pos op_join op_obj_charat op_obj_substr op_obj_starts
        op_obj_ends op_obj_tokenize op_translate op_obj_positions op_dynamic_add op_obj_size
        op_array op_array_assign op_array_multidim op_array_multidim_assign op_obj_subarray
        op_obj_addstring op_obj_deletestring op_obj_removestring op_obj_replacestring
        op_obj_insertstring op_obj_clear op_array_new_multidim op_with op_withend op_foreach op_this
        op_thiso op_player op_playero op_level op_temp op_params :
      Op

-- The number of an opcode, `int(op)`.
unfoldable pub value : Op → ℕ
value op_none = 0
value op_set_index = 1
value op_set_index_true = 2
value op_or = 3
value op_if = 4
value op_and = 5
value op_call = 6
value op_ret = 7
value op_sleep = 8
value op_cmd_call = 9
value op_jmp = 10
value op_waitfor = 11
value op_type_number = 20
value op_type_string = 21
value op_type_var = 22
value op_type_array = 23
value op_type_true = 24
value op_type_false = 25
value op_type_null = 26
value op_pi = 27
value op_copy_last_op = 30
value op_swap_last_ops = 31
value op_index_dec = 32
value op_conv_to_float = 33
value op_conv_to_string = 34
value op_member_access = 35
value op_conv_to_object = 36
value op_array_end = 37
value op_array_new = 38
value op_setarray = 39
value op_inline_new = 40
value op_makevar = 41
value op_new_object = 42
value op_obj_from_str = 43
value op_inline_conditional = 44
value op_reg_store = 45
value op_reg_load = 46
value op_conv_to_property = 47
value op_assign = 50
value op_func_params_end = 51
value op_inc = 52
value op_dec = 53
value op_unknown_54 = 54
value op_add = 60
value op_sub = 61
value op_mul = 62
value op_div = 63
value op_mod = 64
value op_pow = 65
value op_unknown_66 = 66
value op_unknown_67 = 67
value op_not = 68
value op_unarysub = 69
value op_eq = 70
value op_neq = 71
value op_lt = 72
value op_gt = 73
value op_lte = 74
value op_gte = 75
value op_bwo = 76
value op_bwa = 77
value op_bwx = 78
value op_bwi = 79
value op_in_range = 80
value op_in_obj = 81
value op_obj_index = 82
value op_obj_type = 83
value op_format = 84
value op_int = 85
value op_abs = 86
value op_random = 87
value op_sin = 88
value op_cos = 89
value op_arctan = 90
value op_exp = 91
value op_log = 92
value op_min = 93
value op_max = 94
value op_getangle = 95
value op_getdir = 96
value op_vecx = 97
value op_vecy = 98
value op_obj_indices = 99
value op_obj_link = 100
value op_bw_leftshift = 101
value op_bw_rightshift = 102
value op_char = 103
value op_obj_compare = 104
value op_obj_trim = 110
value op_obj_length = 111
value op_obj_pos = 112
value op_join = 113
value op_obj_charat = 114
value op_obj_substr = 115
value op_obj_starts = 116
value op_obj_ends = 117
value op_obj_tokenize = 118
value op_translate = 119
value op_obj_positions = 120
value op_dynamic_add = 121
value op_obj_size = 130
value op_array = 131
value op_array_assign = 132
value op_array_multidim = 133
value op_array_multidim_assign = 134
value op_obj_subarray = 135
value op_obj_addstring = 136
value op_obj_deletestring = 137
value op_obj_removestring = 138
value op_obj_replacestring = 139
value op_obj_insertstring = 140
value op_obj_clear = 141
value op_array_new_multidim = 142
value op_with = 150
value op_withend = 151
value op_foreach = 163
value op_this = 180
value op_thiso = 181
value op_player = 182
value op_playero = 183
value op_level = 184
value op_temp = 189
value op_params = 190

pub all_ops : List Op
all_ops =
    op_none ∷ op_set_index ∷ op_set_index_true ∷ op_or ∷ op_if ∷ op_and ∷ op_call ∷ op_ret
    ∷ op_sleep ∷ op_cmd_call ∷ op_jmp ∷ op_waitfor ∷ op_type_number ∷ op_type_string ∷ op_type_var
    ∷ op_type_array ∷ op_type_true ∷ op_type_false ∷ op_type_null ∷ op_pi ∷ op_copy_last_op
    ∷ op_swap_last_ops ∷ op_index_dec ∷ op_conv_to_float ∷ op_conv_to_string ∷ op_member_access
    ∷ op_conv_to_object ∷ op_array_end ∷ op_array_new ∷ op_setarray ∷ op_inline_new ∷ op_makevar
    ∷ op_new_object ∷ op_obj_from_str ∷ op_inline_conditional ∷ op_reg_store ∷ op_reg_load
    ∷ op_conv_to_property ∷ op_assign ∷ op_func_params_end ∷ op_inc ∷ op_dec ∷ op_unknown_54
    ∷ op_add ∷ op_sub ∷ op_mul ∷ op_div ∷ op_mod ∷ op_pow ∷ op_unknown_66 ∷ op_unknown_67 ∷ op_not
    ∷ op_unarysub ∷ op_eq ∷ op_neq ∷ op_lt ∷ op_gt ∷ op_lte ∷ op_gte ∷ op_bwo ∷ op_bwa ∷ op_bwx
    ∷ op_bwi ∷ op_in_range ∷ op_in_obj ∷ op_obj_index ∷ op_obj_type ∷ op_format ∷ op_int ∷ op_abs
    ∷ op_random ∷ op_sin ∷ op_cos ∷ op_arctan ∷ op_exp ∷ op_log ∷ op_min ∷ op_max ∷ op_getangle
    ∷ op_getdir ∷ op_vecx ∷ op_vecy ∷ op_obj_indices ∷ op_obj_link ∷ op_bw_leftshift
    ∷ op_bw_rightshift ∷ op_char ∷ op_obj_compare ∷ op_obj_trim ∷ op_obj_length ∷ op_obj_pos
    ∷ op_join ∷ op_obj_charat ∷ op_obj_substr ∷ op_obj_starts ∷ op_obj_ends ∷ op_obj_tokenize
    ∷ op_translate ∷ op_obj_positions ∷ op_dynamic_add ∷ op_obj_size ∷ op_array ∷ op_array_assign
    ∷ op_array_multidim ∷ op_array_multidim_assign ∷ op_obj_subarray ∷ op_obj_addstring
    ∷ op_obj_deletestring ∷ op_obj_removestring ∷ op_obj_replacestring ∷ op_obj_insertstring
    ∷ op_obj_clear ∷ op_array_new_multidim ∷ op_with ∷ op_withend ∷ op_foreach ∷ op_this ∷ op_thiso
    ∷ op_player ∷ op_playero ∷ op_level ∷ op_temp ∷ op_params ∷ []

-- `Op(value)`, or `none` for its ValueError.
pub find_op : List Op → ℕ → Option Op
find_op [] n = none
find_op (op ∷ ops) n = if value op == n then some op else find_op ops n

unfoldable pub op_of : ℕ → Option Op
unfolding find_op all_ops
op_of n = find_op all_ops n

-- `op in OPERAND_OPS`
pub is_operand_op : Op → Bool
is_operand_op op_set_index = true
is_operand_op op_set_index_true = true
is_operand_op op_or = true
is_operand_op op_if = true
is_operand_op op_and = true
is_operand_op op_type_number = true
is_operand_op op_type_string = true
is_operand_op op_type_var = true
is_operand_op op_with = true
is_operand_op op_foreach = true
is_operand_op op_reg_store = true
is_operand_op op_reg_load = true
is_operand_op op = false

-- `op in INDEX_OPS`
pub is_index_op : Op → Bool
is_index_op op_type_string = true
is_index_op op_type_var = true
is_index_op op = false
