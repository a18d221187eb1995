-- ===== src/Ll/Token.antt =====
-- The tokens of src/ll_lexer.h.
use liric.Base.{ℕ, List}

pub data Tok : Type 0 where
  eof error define declare ret br label add sub mul sdiv srem udiv urem and or xor shl lshr : Tok
  ashr fadd fsub fmul fdiv frem fneg icmp fcmp alloca load store getelementptr call phi : Tok
  select sext zext trunc bitcast ptrtoint inttoptr sitofp uitofp fptosi fptoui fpext fptrunc : Tok
  extractvalue insertvalue unreachable switch invoke landingpad resume unwind cleanup catch : Tok
  personality to align nsw nuw inbounds nonnull noundef signext zeroext nocapture readonly : Tok
  writeonly global constant external internal private common linkonce_odr dsolocal : Tok
  unnamed_addr local_unnamed_addr type opaque null undef zeroinitializer true false nnan : Tok
  ninf nsz eq ne sgt sge slt sle ugt uge ult ule oeq one ogt oge olt ole ord ueq une uno : Tok
  void i1 i8 i16 i32 i64 float double x86_fp80 ptr local_id global_id int_lit float_lit : Tok
  string_lit lparen rparen lbrace rbrace lbracket rbracket comma equals star dotdotdot colon : Tok
  langle rangle exclaim x hash attr_group metadata_id newline : Tok

-- `start` is the offset of the text in the source; an `int64_t` and a `double` are their patterns.
pub record Token : Type 0 where
  pub kind : Tok
  pub start : ℕ
  pub len : ℕ
  pub int_val : ℕ
  pub float_val : ℕ

-- `src` is the buffer from its start to its end, `src_len` bytes.
pub record Lexer : Type 0 where
  pub src : List ℕ
  pub pos : ℕ
