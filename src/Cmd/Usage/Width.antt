-- ===== src/Cmd/Usage/Width.antt =====
-- wrap of cmd/config.go: the width of its lines.
use Prim.Native.Char.{Char, code, len_utf8}
use Prim.Native.String.{String}
use Prim.Native.String.append
use Prim.Native.String.len
use text.Mathlib.TextPositions.{len-append}
use promeproxy.Common.{
  ℕ, zero, suc, ◌+◌, ◌-◌, ◌≤◌, ◌≡◌, refl, sym, ap, ◌∙◌, subst, inl, inr, Bool, false, List, [], ◌∷◌,
  arith, ltb, if◌then◌else◌, ◌==◌, Bool-cases, str_append, str_len, All,
}
use promeproxy.Common.{string_eq, nat_eq}
use promeproxy.Cmd.Usage.{split_after, spaces, wrap_loop}

abbrev is_newline : Char → Bool
is_newline c = code c == 10

-- No line goes past `limit`, counted in bytes, where the text starts at column `col`.
abbrev pub IsFit : ℕ → ℕ → String → Type 0
IsFit limit col String.[] = Unit
IsFit limit col (String.◌∷◌ c s) =
    if is_newline c
    then IsFit limit 0 s
    else (col + len_utf8 c ≤ limit) × IsFit limit (col + len_utf8 c) s

-- the column where the text ends
abbrev column : ℕ → String → ℕ
column col String.[] = col
column col (String.◌∷◌ c s) = column (if is_newline c then 0 else col + len_utf8 c) s

-- no newline
abbrev pub IsLine : String → Type 0
IsLine String.[] = Unit
IsLine (String.◌∷◌ c s) = (is_newline c ≡ false) × IsLine s

IsFit-append :
    (limit col : ℕ) (s t : String)
    → IsFit limit col s
    → IsFit limit (column col s) t
    → IsFit limit col (str_append s t)
IsFit-append limit col String.[] t h k = subst (IsFit limit col) (sym (append.nil t)) k
IsFit-append limit col (String.◌∷◌ c s) t h k =
    subst (IsFit limit col) (sym (append.cons c s t)) (elim (Bool-cases (is_newline c)) [
      | inl e ↦ rw (e) (IsFit-append limit 0 s t (rw e at h) (rw e at k))
      | inr e ↦
          let (room, rest) : (col + len_utf8 c ≤ limit) × IsFit limit (col + len_utf8 c) s =
            rw e at h in
          rw (e) (room, IsFit-append limit (col + len_utf8 c) s t rest (rw e at k))
    ])

column-append : (col : ℕ) (s t : String) → column col (str_append s t) ≡ column (column col s) t
column-append col String.[] t = ap (column col) (append.nil t)
column-append col (String.◌∷◌ c s) t =
    ap (column col) (append.cons c s t)
    ∙ column-append (if is_newline c then 0 else col + len_utf8 c) s t

IsLine-IsFit : (limit col : ℕ) (w : String) → IsLine w → col + str_len w ≤ limit → IsFit limit col w
IsLine-IsFit limit col String.[] l h = tt
IsLine-IsFit limit col (String.◌∷◌ c s) l h = rw (l.0) (
  omega (arith, len.cons c s),
  IsLine-IsFit limit (col + len_utf8 c) s l.1 (omega (arith, len.cons c s)),
)

column_of_line : (col : ℕ) (w : String) → IsLine w → column col w ≡ col + str_len w
column_of_line col String.[] l = omega arith
column_of_line col (String.◌∷◌ c s) l =
    rw (l.0) (omega (arith, len.cons c s, column_of_line (col + len_utf8 c) s l.1))

spaces-IsLine : (n : ℕ) → IsLine (spaces n)
unfolding spaces
spaces-IsLine zero = tt
spaces-IsLine (suc n) =
    subst IsLine
      (sym (append.cons " " "" (spaces n) ∙ ap (λ t. String.◌∷◌ " " t) (append.nil (spaces n))))
      (refl, spaces-IsLine n)

len-spaces : (n : ℕ) → str_len (spaces n) ≡ n
unfolding spaces
len-spaces zero = refl
len-spaces (suc n) = omega (arith, len-append " " (spaces n), len-spaces n)

-- Words without a newline, none wider than `width`.
abbrev pub AreNarrow : ℕ → List String → Type 0
AreNarrow width = All (λ w. IsLine w × (str_len w ≤ width))

-- the line that a break starts
abbrev break : ℕ → String
break indent = str_append "\n" (spaces indent)

break-text : (indent : ℕ) → break indent ≡ String.◌∷◌ "\n" (spaces indent)
break-text indent =
    append.cons "\n" "" (spaces indent) ∙ ap (λ t. String.◌∷◌ "\n" t) (append.nil (spaces indent))

column-break : (col indent : ℕ) → column col (break indent) ≡ indent
column-break col indent =
    ap (column col) (break-text indent)
    ∙ omega (arith, column_of_line 0 (spaces indent) (spaces-IsLine indent), len-spaces indent)

break-IsFit : (limit col indent : ℕ) → indent ≤ limit → IsFit limit col (break indent)
break-IsFit limit col indent h =
    subst (IsFit limit col) (sym (break-text indent)) (
      IsLine-IsFit limit 0 (spaces indent) (spaces-IsLine indent)
        (omega (arith, len-spaces indent)))

-- a word after a text that leaves room for it
word-IsFit :
    (limit col : ℕ) (ns w : String)
    → IsLine w
    → IsFit limit col ns
    → column col ns + str_len w ≤ limit
    → IsFit limit col (str_append ns w)
word-IsFit limit col ns w l f h =
    IsFit-append limit col ns w f (IsLine-IsFit limit (column col ns) w l h)

column-word :
    (col : ℕ) (ns w : String) → IsLine w → column col (str_append ns w) ≡ column col ns + str_len w
column-word col ns w l = column-append col ns w ∙ column_of_line (column col ns) w l

wrap_loop-fits :
    (width indent len : ℕ) (ns : String) (words : List String)
    → AreNarrow width words
    → IsFit (width + indent) indent ns
    → column indent ns ≤ len + indent
    → IsFit (width + indent) indent (wrap_loop width indent len ns words)
unfolding wrap_loop
wrap_loop-fits width indent len ns [] a f c = f
wrap_loop-fits width indent len ns (w ∷ ws) ((l, n), a) f c =
    elim (Bool-cases (ltb width (len + str_len w))) [
      | inl e ↦
          let broken = str_append ns (break indent) in
          let start : column indent broken ≡ indent =
            column-append indent ns (break indent) ∙ column-break (column indent ns) indent in
          let fit =
            IsFit-append (width + indent) indent ns (break indent) f
              (break-IsFit (width + indent) (column indent ns) indent (omega arith)) in
          rw (e) (
            wrap_loop-fits width indent (str_len w) (str_append broken w) ws a
              (word-IsFit (width + indent) indent broken w l fit (omega (arith, start)))
              (omega (arith, column-word indent broken w l, start)))
      | inr e ↦
          let room : len + str_len w ≤ width = ground arith in
          rw (e) (
            wrap_loop-fits width indent (len + str_len w) (str_append ns w) ws a
              (word-IsFit (width + indent) indent ns w l f (omega arith))
              (omega (arith, column-word indent ns w l)))
    ]

-- The text that wrap builds, before its spaces at both ends are trimmed, has no line that goes past
-- `width`, where its first line starts at the column `indent` as the template has it, if no
-- word has a newline and each fits beside the indentation; widths are in bytes.
pub wrap_loop-IsFit :
    (width indent : ℕ) (s : String)
    → indent ≤ width
    → AreNarrow (width - indent) (split_after s)
    → IsFit width indent (wrap_loop (width - indent) indent indent "" (split_after s))
wrap_loop-IsFit width indent s h a =
    subst (λ n. IsFit n indent (wrap_loop (width - indent) indent indent "" (split_after s)))
      (omega arith)
      (wrap_loop-fits (width - indent) indent indent "" (split_after s) a tt (omega arith))
