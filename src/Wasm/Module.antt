-- ===== src/Wasm/Module.antt =====
-- The decoded module of src/wasm_decode.h. A C array and its count field are a list and a number;
-- a pointer into the input is an offset, and a string the list of its bytes (`none` is NULL).
use liric.Base.{ℕ, List, [], Option, Bool}

pub record FuncType : Type 0 where
  pub params : List ℕ
  pub num_params : ℕ
  pub results : List ℕ
  pub num_results : ℕ

pub record Import : Type 0 where
  pub module_name : Option (List ℕ)
  pub name : Option (List ℕ)
  pub kind : ℕ
  pub type_idx : ℕ

pub record Export : Type 0 where
  pub name : Option (List ℕ)
  pub kind : ℕ
  pub index : ℕ

pub record LocalGroup : Type 0 where
  pub count : ℕ
  pub type : ℕ

pub record Code : Type 0 where
  pub local_groups : List LocalGroup
  pub num_local_groups : ℕ
  pub body : ℕ
  pub body_len : ℕ

pub record Memory : Type 0 where
  pub min_pages : ℕ
  pub max_pages : ℕ
  pub has_max : Bool

-- `init_i64` is the bit pattern of an `int64_t`.
pub record Global : Type 0 where
  pub type : ℕ
  pub mutable : Bool
  pub init_i64 : ℕ

pub record DataSegment : Type 0 where
  pub memory_idx : ℕ
  pub offset : ℕ
  pub bytes : Option ℕ
  pub size : ℕ

pub record WasmModule : Type 0 where
  pub types : List FuncType
  pub num_types : ℕ
  pub imports : List Import
  pub num_imports : ℕ
  pub func_type_indices : List ℕ
  pub num_funcs : ℕ
  pub exports : List Export
  pub num_exports : ℕ
  pub codes : List Code
  pub num_codes : ℕ
  pub memories : List Memory
  pub num_memories : ℕ
  pub globals : List Global
  pub num_globals : ℕ
  pub data_segments : List DataSegment
  pub num_data : ℕ
  pub num_func_imports : ℕ

-- `lr_arena_new` clears the memory.
abbrev pub empty_module : WasmModule
empty_module = record {
  types = [];
  num_types = 0;
  imports = [];
  num_imports = 0;
  func_type_indices = [];
  num_funcs = 0;
  exports = [];
  num_exports = 0;
  codes = [];
  num_codes = 0;
  memories = [];
  num_memories = 0;
  globals = [];
  num_globals = 0;
  data_segments = [];
  num_data = 0;
  num_func_imports = 0;
}
