-- ===== src/Ll/Names.antt =====
-- `lr_tok_name` of src/ll_lexer.c, as the bytes of the name.
use liric.Base.{ℕ, List, codes}
use liric.Ll.Token.{Tok}

unfoldable pub tok_name : Tok → List ℕ
tok_name Tok.eof = codes "eof"
tok_name Tok.error = codes "error"
tok_name Tok.define = codes "define"
tok_name Tok.declare = codes "declare"
tok_name Tok.ret = codes "ret"
tok_name Tok.br = codes "br"
tok_name Tok.label = codes "label"
tok_name Tok.add = codes "add"
tok_name Tok.sub = codes "sub"
tok_name Tok.mul = codes "mul"
tok_name Tok.sdiv = codes "sdiv"
tok_name Tok.srem = codes "srem"
tok_name Tok.udiv = codes "udiv"
tok_name Tok.urem = codes "urem"
tok_name Tok.call = codes "call"
tok_name Tok.switch = codes "switch"
tok_name Tok.invoke = codes "invoke"
tok_name Tok.landingpad = codes "landingpad"
tok_name Tok.resume = codes "resume"
tok_name Tok.unwind = codes "unwind"
tok_name Tok.cleanup = codes "cleanup"
tok_name Tok.catch = codes "catch"
tok_name Tok.personality = codes "personality"
tok_name Tok.getelementptr = codes "getelementptr"
tok_name Tok.align = codes "align"
tok_name Tok.void = codes "void"
tok_name Tok.i1 = codes "i1"
tok_name Tok.i8 = codes "i8"
tok_name Tok.i16 = codes "i16"
tok_name Tok.i32 = codes "i32"
tok_name Tok.i64 = codes "i64"
tok_name Tok.float = codes "float"
tok_name Tok.double = codes "double"
tok_name Tok.x86_fp80 = codes "x86_fp80"
tok_name Tok.ptr = codes "ptr"
tok_name Tok.local_id = codes "local_id"
tok_name Tok.global_id = codes "global_id"
tok_name Tok.int_lit = codes "int_lit"
tok_name Tok.float_lit = codes "float_lit"
tok_name Tok.string_lit = codes "string_lit"
tok_name Tok.lparen = codes "("
tok_name Tok.rparen = codes ")"
tok_name Tok.lbrace = codes "{"
tok_name Tok.rbrace = codes "}"
tok_name Tok.lbracket = codes "["
tok_name Tok.rbracket = codes "]"
tok_name Tok.comma = codes ","
tok_name Tok.equals = codes "="
tok_name Tok.star = codes "*"
tok_name Tok.colon = codes ":"
tok_name Tok.langle = codes "<"
tok_name Tok.rangle = codes ">"
tok_name Tok.dotdotdot = codes "..."
tok_name _ = codes "?"
