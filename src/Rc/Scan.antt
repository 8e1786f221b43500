-- ===== src/Rc/Scan.antt =====
-- How the lexer of crates/star9-rc/src/lib.rs reads a word. A position `i` in the characters goes with
-- those that follow it, so that a loop over positions is a recursion on a list.
use star.Base.{ℕ, zero, suc, ◌+◌, Bool, true, false, ◌||◌, ◌&&◌, ◌==◌, [], ◌∷◌, ◌++◌, length}
use star.Rc.Chars.{Chars, RcResult, ok, out_of_fuel, ◌>>=◌, at, is_whitespace, has_char}

abbrev pub quote : ℕ
quote = 39

abbrev pub backquote : ℕ
backquote = 96

-- The text that was read so far, the next position, and the characters from there on.
pub record Read : Type 0 where
  pub text : Chars
  pub next : ℕ
  pub rest : Chars

-- `chars.get(i) == Some(&c)`
unfoldable pub is_next : ℕ → Chars → Bool
is_next c [] = false
is_next c (d ∷ ds) = d == c

-- The loop behind an opening quote: two quotes are one, and are both kept.
unfoldable pub quote_loop : ℕ → Chars → Chars → Read
quote_loop i out [] = record { text = out; next = i; rest = [] }
quote_loop i out (c ∷ []) = record { text = out ++ c ∷ []; next = i + 1; rest = [] }
quote_loop i out (c ∷ d ∷ ds) = elim (c == quote) [
  | true ↦ elim (d == quote) [
    | true ↦ quote_loop (i + 2) (out ++ c ∷ d ∷ []) ds
    | false ↦ record { text = out ++ c ∷ []; next = i + 1; rest = d ∷ ds }
  ]
  | false ↦ quote_loop (i + 1) (out ++ c ∷ []) (d ∷ ds)
]

-- The loop behind the parenthesis of a subscript, which ends behind the closing one.
unfoldable pub paren_loop : ℕ → Chars → Chars → Read
paren_loop i out [] = record { text = out; next = i; rest = [] }
paren_loop i out (c ∷ cs) = elim (c == b')') [
  | true ↦ record { text = out ++ c ∷ []; next = i + 1; rest = cs }
  | false ↦ paren_loop (i + 1) (out ++ c ∷ []) cs
]

-- The loop of `read_braced_substitution`, inside of so many braces.
unfoldable pub brace_loop : ℕ → ℕ → ℕ → ℕ → Chars → Chars → RcResult Read
unfolding quote_loop
brace_loop zero start depth i out cs = out_of_fuel
brace_loop (suc fuel) start depth i out [] = at "unterminated command substitution" start i
brace_loop (suc fuel) start depth i out (c ∷ cs) = elim (c == quote) [
  | true ↦
      let quoted = quote_loop (i + 1) (out ++ c ∷ []) cs in
      brace_loop fuel start depth quoted.next quoted.text quoted.rest
  | false ↦ elim (c == b'{') [
    | true ↦ brace_loop fuel start (suc depth) (i + 1) (out ++ c ∷ []) cs
    | false ↦ elim (c == b'}') [
      | true ↦ elim depth [
        | zero ↦ brace_loop fuel start zero (i + 1) (out ++ c ∷ []) cs
        | suc zero ↦ ok (record { text = out ++ c ∷ []; next = i + 1; rest = cs })
        | suc (suc d) ↦ brace_loop fuel start (suc d) (i + 1) (out ++ c ∷ []) cs
      ]
      | false ↦ brace_loop fuel start depth (i + 1) (out ++ c ∷ []) cs
    ]
  ]
]

-- Its callers have seen a backquote and a brace, so the depth does not go below zero.
unfoldable pub read_braced_substitution : ℕ → Chars → RcResult Read
unfolding brace_loop
read_braced_substitution start cs = brace_loop (suc (length cs)) start 0 start [] cs

-- The characters that end a word.
unfoldable pub ends_word : ℕ → Bool
unfolding is_whitespace
ends_word c =
    is_whitespace c
    || c == b';'
    || c == b'{'
    || c == b'}'
    || c == b'('
    || c == b')'
    || c == b'&'
    || c == b'|'
    || c == b'<'
    || c == b'>'

-- The loop of `read_word`.
unfoldable pub word_loop : ℕ → ℕ → Chars → Chars → RcResult Read
unfolding quote_loop paren_loop read_braced_substitution ends_word is_next has_char
word_loop zero i out cs = out_of_fuel
word_loop (suc fuel) i out [] = ok (record { text = out; next = i; rest = [] })
word_loop (suc fuel) i out (c ∷ cs) = elim (c == b'(' && has_char b'$' out) [
  | true ↦
      let sub = paren_loop (i + 1) (out ++ c ∷ []) cs in word_loop fuel sub.next sub.text sub.rest
  | false ↦ elim (ends_word c) [
    | true ↦ ok (record { text = out; next = i; rest = c ∷ cs })
    | false ↦ elim (c == quote) [
      | true ↦
          let quoted = quote_loop (i + 1) (out ++ c ∷ []) cs in
          word_loop fuel quoted.next quoted.text quoted.rest
      | false ↦ elim (c == backquote && is_next b'{' cs) [
        | true ↦ read_braced_substitution i (c ∷ cs) >>= λ sub.
            word_loop fuel sub.next (out ++ sub.text) sub.rest
        | false ↦ word_loop fuel (i + 1) (out ++ c ∷ []) cs
      ]
    ]
  ]
]

-- What `read_word` makes of the text that the loop comes to.
unfoldable pub word_or_error : ℕ → Read → RcResult Read
word_or_error start read = elim read.text [
  | [] ↦ at "expected word" start read.next
  | _ ∷ _ ↦ ok read
]

unfoldable pub read_word : ℕ → Chars → RcResult Read
unfolding word_loop word_or_error
read_word start cs = word_loop (suc (length cs)) start [] cs >>= word_or_error start
