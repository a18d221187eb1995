-- ===== src/Ll/Cases.antt =====
-- The cases of the switch of `lookup_keyword` of src/ll_lexer.c, in the source's order.
pub mod Lookup
use liric.Base.{ℕ, String, List, [], ◌∷◌, ◌++◌}
use liric.Ll.Token.{Tok}
use liric.Ll.Keywords.{Keyword, keyword}

-- `case hash: if (len == L && memcmp(s, name, L) == 0) return tok; break;`
pub record Case : Type 0 where
  pub hash : ℕ
  pub keyword : Keyword

abbrev case_of : ℕ → String → Tok → Case
case_of hash name tok = record { hash = hash; keyword = keyword name tok }

unfoldable pub first_cases : List Case
first_cases =
    case_of 0x01f7e39f "signext" Tok.signext
    ∷ case_of 0x0684099c "urem" Tok.urem
    ∷ case_of 0x0691ea25 "constant" Tok.constant
    ∷ case_of 0x0b069958 "false" Tok.false
    ∷ case_of 0x0f29c2a6 "and" Tok.and
    ∷ case_of 0x11c2662d "select" Tok.select
    ∷ case_of 0x13266a9c "ninf" Tok.ninf
    ∷ case_of 0x186c5d43 "nsw" Tok.nsw
    ∷ case_of 0x1c362229 "fsub" Tok.fsub
    ∷ case_of 0x1cb0ec77 "ashr" Tok.ashr
    ∷ case_of 0x1dff06ae "global" Tok.global
    ∷ case_of 0x236c6e94 "nsz" Tok.nsz
    ∷ case_of 0x287286a1 "nuw" Tok.nuw
    ∷ case_of 0x2c9151f9 "nonnull" Tok.nonnull
    ∷ case_of 0x30dbb8a6 "srem" Tok.srem
    ∷ case_of 0x30f467ac "ret" Tok.ret
    ∷ case_of 0x331d748a "external" Tok.external
    ∷ case_of 0x33952f14 "fdiv" Tok.fdiv
    ∷ case_of 0x34efc59f "bitcast" Tok.bitcast
    ∷ case_of 0x36cff9c0 "ult" Tok.ult
    ∷ case_of 0x38c330f3 "ugt" Tok.ugt
    ∷ case_of 0x39262605 "declare" Tok.declare
    ∷ case_of 0x3b391274 "add" Tok.add
    ∷ case_of 0x41437d99 "insertvalue" Tok.insertvalue
    ∷ case_of 0x42454824 "to" Tok.to
    ∷ case_of 0x441a6a43 "eq" Tok.eq
    ∷ case_of 0x47c34890 "uge" Tok.uge
    ∷ case_of 0x47d01483 "ule" Tok.ule
    ∷ case_of 0x48b5725f "void" Tok.void
    ∷ case_of 0x4c75e965 "fmul" Tok.fmul
    ∷ case_of 0x4d5b0474 "common" Tok.common
    ∷ case_of 0x4db211e5 "true" Tok.true
    ∷ case_of 0x4f2bc4b5 "br" Tok.br
    ∷ case_of 0x4fbed7fa "ueq" Tok.ueq
    ∷ case_of 0x4ff85ef6 "lshr" Tok.lshr
    ∷ case_of 0x5127f14d "type" Tok.type
    ∷ case_of 0x51d4a16f "uno" Tok.uno
    ∷ case_of 0x5244aa84 "phi" Tok.phi
    ∷ []

unfoldable pub middle_cases : List Case
middle_cases =
    case_of 0x55764c09 "ptr" Tok.ptr
    ∷ case_of 0x5836603c "ne" Tok.ne
    ∷ case_of 0x58b04806 "fpext" Tok.fpext
    ∷ case_of 0x5bd4b12d "une" Tok.une
    ∷ case_of 0x5cca1c55 "alloca" Tok.alloca
    ∷ case_of 0x5d342984 "or" Tok.or
    ∷ case_of 0x602c63de "align" Tok.align
    ∷ case_of 0x62cb0d0c "private" Tok.private
    ∷ case_of 0x668cbeb0 "noundef" Tok.noundef
    ∷ case_of 0x668d4269 "sext" Tok.sext
    ∷ case_of 0x670195b6 "sitofp" Tok.sitofp
    ∷ case_of 0xc1f8df40 "uitofp" Tok.uitofp
    ∷ case_of 0x6a9f8552 "define" Tok.define
    ∷ case_of 0x6f15601e "opaque" Tok.opaque
    ∷ case_of 0x705624fc "zext" Tok.zext
    ∷ case_of 0x75191b51 "undef" Tok.undef
    ∷ case_of 0x77074ba4 "null" Tok.null
    ∷ case_of 0x7f6a0e3f "extractvalue" Tok.extractvalue
    ∷ case_of 0x7f795119 "ptrtoint" Tok.ptrtoint
    ∷ case_of 0x91b3e243 "frem" Tok.frem
    ∷ case_of 0x91fa8f16 "writeonly" Tok.writeonly
    ∷ case_of 0x93e05f71 "switch" Tok.switch
    ∷ case_of 0x991deba0 "ord" Tok.ord
    ∷ case_of 0x9a796d00 "internal" Tok.internal
    ∷ case_of 0xa02c414d "getelementptr" Tok.getelementptr
    ∷ case_of 0xa0eb0f08 "double" Tok.double
    ∷ case_of 0xa642d0f0 "oeq" Tok.oeq
    ∷ case_of 0xa6c45d85 "float" Tok.float
    ∷ case_of 0xa7105b55 "fneg" Tok.fneg
    ∷ case_of 0xaaedf37f "inbounds" Tok.inbounds
    ∷ case_of 0xaaefa29b "udiv" Tok.udiv
    ∷ case_of 0xad2b82a6 "olt" Tok.olt
    ∷ case_of 0xb2f7980d "invoke" Tok.invoke
    ∷ case_of 0x4807fb41 "landingpad" Tok.landingpad
    ∷ case_of 0xff39a36a "resume" Tok.resume
    ∷ case_of 0xa4dc0768 "unwind" Tok.unwind
    ∷ case_of 0xd95df1b3 "cleanup" Tok.cleanup
    ∷ case_of 0x4288e94c "catch" Tok.catch
    ∷ []

unfoldable pub last_cases : List Case
last_cases =
    case_of 0x0e221f23 "personality" Tok.personality
    ∷ case_of 0xb3f184a9 "call" Tok.call
    ∷ case_of 0xb6b438fe "zeroext" Tok.zeroext
    ∷ case_of 0xb736d533 "local_unnamed_addr" Tok.local_unnamed_addr
    ∷ case_of 0xba2719ef "one" Tok.one
    ∷ case_of 0xbe2b9d69 "ole" Tok.ole
    ∷ case_of 0xbf3ce81d "ogt" Tok.ogt
    ∷ case_of 0xc7649392 "fptosi" Tok.fptosi
    ∷ case_of 0xbb5e7080 "fptoui" Tok.fptoui
    ∷ case_of 0xc7e7bc2e "store" Tok.store
    ∷ case_of 0xc93854dd "sle" Tok.sle
    ∷ case_of 0xcc6bdb7e "xor" Tok.xor
    ∷ case_of 0xce0beff7 "readonly" Tok.readonly
    ∷ case_of 0xce3cffba "oge" Tok.oge
    ∷ case_of 0xd522b60d "dso_local" Tok.dsolocal
    ∷ case_of 0xd55e61e5 "trunc" Tok.trunc
    ∷ case_of 0xd809e3a3 "unnamed_addr" Tok.unnamed_addr
    ∷ case_of 0xd8386c7a "slt" Tok.slt
    ∷ case_of 0xd83b82b8 "icmp" Tok.icmp
    ∷ case_of 0xd89e21f1 "unreachable" Tok.unreachable
    ∷ case_of 0xda211651 "sgt" Tok.sgt
    ∷ case_of 0xdc4e3915 "sub" Tok.sub
    ∷ case_of 0xe02debb6 "shl" Tok.shl
    ∷ case_of 0xe0c77861 "zeroinitializer" Tok.zeroinitializer
    ∷ case_of 0xe2f81043 "fptrunc" Tok.fptrunc
    ∷ case_of 0xe60759e9 "load" Tok.load
    ∷ case_of 0xe81fa798 "nocapture" Tok.nocapture
    ∷ case_of 0xe9212dee "sge" Tok.sge
    ∷ case_of 0xe9f1dd8b "fcmp" Tok.fcmp
    ∷ case_of 0xeb84ed81 "mul" Tok.mul
    ∷ case_of 0xf06d8280 "fadd" Tok.fadd
    ∷ case_of 0xf18b906c "linkonce_odr" Tok.linkonce_odr
    ∷ case_of 0xf577d25e "nnan" Tok.nnan
    ∷ case_of 0xf69717fd "label" Tok.label
    ∷ case_of 0xf7c31c4f "inttoptr" Tok.inttoptr
    ∷ case_of 0xf820d675 "sdiv" Tok.sdiv
    ∷ case_of 0xfd0c5087 "x" Tok.x
    ∷ case_of 0x87d98b64 "x86_fp80" Tok.x86_fp80
    ∷ []

abbrev pub cases : List Case
cases = first_cases ++ middle_cases ++ last_cases
