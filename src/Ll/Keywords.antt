-- ===== src/Ll/Keywords.antt =====
-- The two tables of keywords of src/ll_lexer.c: the list `keywords`, and the cases of the switch of
-- `lookup_keyword`.
use liric.Base.{String, List, ℕ, [], ◌∷◌, codes}
use liric.Ll.Token.{Tok}

pub record Keyword : Type 0 where
  pub name : List ℕ
  pub tok : Tok

abbrev pub keyword : String → Tok → Keyword
keyword name tok = record { name = codes name; tok = tok }

unfoldable pub keywords : List Keyword
keywords =
    keyword "define" Tok.define
    ∷ keyword "declare" Tok.declare
    ∷ keyword "ret" Tok.ret
    ∷ keyword "br" Tok.br
    ∷ keyword "label" Tok.label
    ∷ keyword "add" Tok.add
    ∷ keyword "sub" Tok.sub
    ∷ keyword "mul" Tok.mul
    ∷ keyword "sdiv" Tok.sdiv
    ∷ keyword "srem" Tok.srem
    ∷ keyword "udiv" Tok.udiv
    ∷ keyword "urem" Tok.urem
    ∷ keyword "and" Tok.and
    ∷ keyword "or" Tok.or
    ∷ keyword "xor" Tok.xor
    ∷ keyword "shl" Tok.shl
    ∷ keyword "lshr" Tok.lshr
    ∷ keyword "ashr" Tok.ashr
    ∷ keyword "fadd" Tok.fadd
    ∷ keyword "fsub" Tok.fsub
    ∷ keyword "fmul" Tok.fmul
    ∷ keyword "fdiv" Tok.fdiv
    ∷ keyword "frem" Tok.frem
    ∷ keyword "fneg" Tok.fneg
    ∷ keyword "icmp" Tok.icmp
    ∷ keyword "fcmp" Tok.fcmp
    ∷ keyword "alloca" Tok.alloca
    ∷ keyword "load" Tok.load
    ∷ keyword "store" Tok.store
    ∷ keyword "getelementptr" Tok.getelementptr
    ∷ keyword "call" Tok.call
    ∷ keyword "phi" Tok.phi
    ∷ keyword "select" Tok.select
    ∷ keyword "sext" Tok.sext
    ∷ keyword "zext" Tok.zext
    ∷ keyword "trunc" Tok.trunc
    ∷ keyword "bitcast" Tok.bitcast
    ∷ keyword "ptrtoint" Tok.ptrtoint
    ∷ keyword "inttoptr" Tok.inttoptr
    ∷ keyword "sitofp" Tok.sitofp
    ∷ keyword "uitofp" Tok.uitofp
    ∷ keyword "fptosi" Tok.fptosi
    ∷ keyword "fptoui" Tok.fptoui
    ∷ keyword "fpext" Tok.fpext
    ∷ keyword "fptrunc" Tok.fptrunc
    ∷ keyword "extractvalue" Tok.extractvalue
    ∷ keyword "insertvalue" Tok.insertvalue
    ∷ keyword "unreachable" Tok.unreachable
    ∷ keyword "switch" Tok.switch
    ∷ keyword "invoke" Tok.invoke
    ∷ keyword "landingpad" Tok.landingpad
    ∷ keyword "resume" Tok.resume
    ∷ keyword "unwind" Tok.unwind
    ∷ keyword "cleanup" Tok.cleanup
    ∷ keyword "catch" Tok.catch
    ∷ keyword "personality" Tok.personality
    ∷ keyword "to" Tok.to
    ∷ keyword "align" Tok.align
    ∷ keyword "nsw" Tok.nsw
    ∷ keyword "nuw" Tok.nuw
    ∷ keyword "inbounds" Tok.inbounds
    ∷ keyword "nonnull" Tok.nonnull
    ∷ keyword "noundef" Tok.noundef
    ∷ keyword "signext" Tok.signext
    ∷ keyword "zeroext" Tok.zeroext
    ∷ keyword "nocapture" Tok.nocapture
    ∷ keyword "readonly" Tok.readonly
    ∷ keyword "writeonly" Tok.writeonly
    ∷ keyword "global" Tok.global
    ∷ keyword "constant" Tok.constant
    ∷ keyword "external" Tok.external
    ∷ keyword "internal" Tok.internal
    ∷ keyword "private" Tok.private
    ∷ keyword "common" Tok.common
    ∷ keyword "linkonce_odr" Tok.linkonce_odr
    ∷ keyword "dso_local" Tok.dsolocal
    ∷ keyword "unnamed_addr" Tok.unnamed_addr
    ∷ keyword "local_unnamed_addr" Tok.local_unnamed_addr
    ∷ keyword "type" Tok.type
    ∷ keyword "opaque" Tok.opaque
    ∷ keyword "null" Tok.null
    ∷ keyword "undef" Tok.undef
    ∷ keyword "zeroinitializer" Tok.zeroinitializer
    ∷ keyword "true" Tok.true
    ∷ keyword "false" Tok.false
    ∷ keyword "nnan" Tok.nnan
    ∷ keyword "ninf" Tok.ninf
    ∷ keyword "nsz" Tok.nsz
    ∷ keyword "void" Tok.void
    ∷ keyword "float" Tok.float
    ∷ keyword "double" Tok.double
    ∷ keyword "x86_fp80" Tok.x86_fp80
    ∷ keyword "ptr" Tok.ptr
    ∷ keyword "eq" Tok.eq
    ∷ keyword "ne" Tok.ne
    ∷ keyword "sgt" Tok.sgt
    ∷ keyword "sge" Tok.sge
    ∷ keyword "slt" Tok.slt
    ∷ keyword "sle" Tok.sle
    ∷ keyword "ugt" Tok.ugt
    ∷ keyword "uge" Tok.uge
    ∷ keyword "ult" Tok.ult
    ∷ keyword "ule" Tok.ule
    ∷ keyword "oeq" Tok.oeq
    ∷ keyword "one" Tok.one
    ∷ keyword "ogt" Tok.ogt
    ∷ keyword "oge" Tok.oge
    ∷ keyword "olt" Tok.olt
    ∷ keyword "ole" Tok.ole
    ∷ keyword "ord" Tok.ord
    ∷ keyword "ueq" Tok.ueq
    ∷ keyword "une" Tok.une
    ∷ keyword "uno" Tok.uno
    ∷ keyword "x" Tok.x
    ∷ []
