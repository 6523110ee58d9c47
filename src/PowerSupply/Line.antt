-- ===== src/PowerSupply/Line.antt =====
-- app/power_supply/comms_task.c: the line buffer against the line that came in.
use nimble_rtos.Common.{
  ℕ, zero, suc, ◌+◌, ◌-◌, ◌<◌, ◌≤◌, ◌≡◌, refl, true, false, Option, none, some, List, [], ◌∷◌, ◌++◌,
  arith, Bool-cases, inl, inr, if◌then◌else◌, ltb, set, length, length-set, length-append, take, ap,
  ◌∙◌, sym,
}
use nimble_rtos.Common.Words.{add32}
use nimble_rtos.PowerSupply.{
  LineBuffer, Reply, cli_line_buf_len, is_line_end, comms_byte, c_string, same_string,
  handle_command, status_word, is_empty_string,
}

module _ {A : Type 0} where
  take-set : (i : ℕ) (xs : List A) (v : A) → take i (set xs i v) ≡ take i xs
  take-set zero xs v = refl
  take-set (suc i) [] v = refl
  take-set (suc i) (x ∷ xs) v = ap (λ zs. x ∷ zs) (take-set i xs v)

  take-set_last :
      (i : ℕ) (xs : List A) (v : A)
      → i < length xs
      → take (suc i) (set xs i v) ≡ take i xs ++ v ∷ []
  take-set_last i [] v h = absurd (omega arith)
  take-set_last zero (x ∷ xs) v h = refl
  take-set_last (suc i) (x ∷ xs) v h = ap (λ zs. x ∷ zs) (take-set_last i xs v (omega arith))

  take-append : (n : ℕ) (xs ys : List A) → n ≤ length xs → take n (xs ++ ys) ≡ take n xs
  take-append zero xs ys h = refl
  take-append (suc n) [] ys h = absurd (omega arith)
  take-append (suc n) (x ∷ xs) ys h = ap (λ zs. x ∷ zs) (take-append n xs ys (omega arith))

  take_all : (n : ℕ) (xs : List A) → length xs ≤ n → take n xs ≡ xs
  take_all zero [] h = refl
  take_all zero (x ∷ xs) h = absurd (omega arith)
  take_all (suc n) [] h = refl
  take_all (suc n) (x ∷ xs) h = ap (λ zs. x ∷ zs) (take_all n xs (omega arith))

-- A terminator at `i` ends the string there.
c_string-set : (i : ℕ) (xs : List ℕ) → i < length xs → c_string (set xs i 0) ≡ c_string (take i xs)
unfolding c_string
c_string-set i [] h = absurd (omega arith)
c_string-set zero (x ∷ xs) h = refl
c_string-set (suc i) (x ∷ xs) h = ground (arith, c_string-set i xs)

-- What fits.
abbrev pub kept : List ℕ → List ℕ
kept line = take (cli_line_buf_len - 1) line

-- `line` came in since the last line end.
pub record HoldsLine (line : List ℕ) (b : LineBuffer) : Type 0 where
  pub sized : length b.line_buf ≡ cli_line_buf_len
  pub filled :
      b.line_len
      ≡ (if ltb (length line) (cli_line_buf_len - 1) then length line else cli_line_buf_len - 1)
  pub held : take b.line_len b.line_buf ≡ kept line

-- What becomes of a byte: it joins the line, or it ends the line, on which the command is run.
pub record ByteTaken (byte : ℕ) (line : List ℕ) (r : Option (List ℕ) × LineBuffer) : Type 0 where
  pub joins : is_line_end byte ≡ false → (r.0 ≡ none) × HoldsLine (line ++ byte ∷ []) r.1
  pub ends :
      is_line_end byte ≡ true
      → (buf : List ℕ) × (r.0 ≡ some buf)
        × (handle_command buf ≡ handle_command (kept line))
        × HoldsLine [] r.1

one_more :
    (len n next : ℕ)
    → len ≡ n
    → next ≡ n + 1
    → n < 63
    → suc len ≡ (if ltb next 63 then next else 63)
one_more len n next e f h = ground arith

module _ {line : List ℕ} {b : LineBuffer} (h : HoldsLine line b) (byte : ℕ) where
  ends_line : HoldsLine [] (record { line_buf = set b.line_buf b.line_len 0; line_len = 0 })
  ends_line = record {
    sized = length-set b.line_buf b.line_len 0 ∙ h.sized;
    filled = refl;
    held = refl;
  }

  same_command : handle_command (set b.line_buf b.line_len 0) ≡ handle_command (kept line)
  unfolding handle_command
  same_command =
      let inside : b.line_len < length b.line_buf = ground (arith, h.sized, h.filled) in
      let same = c_string-set b.line_len b.line_buf inside ∙ ap (λ zs. c_string zs) h.held in
      ap
        (λ zs.
          if same_string zs status_word
          then nimble_rtos.PowerSupply.status_line
          else if is_empty_string zs
          then nimble_rtos.PowerSupply.no_reply
          else nimble_rtos.PowerSupply.unknown_command)
        same

  joins_room :
      length line < cli_line_buf_len - 1
      → HoldsLine
          (line ++ byte ∷ [])
          (record { line_buf = set b.line_buf b.line_len byte; line_len = suc b.line_len })
  joins_room room =
      let len : b.line_len ≡ length line = ground (arith, h.filled) in
      let longer = length-append line (byte ∷ []) in
      record {
        sized = length-set b.line_buf b.line_len byte ∙ h.sized;
        filled = one_more b.line_len (length line) (length (line ++ byte ∷ [])) len longer room;
        held =
            take-set_last b.line_len b.line_buf byte (omega (arith, h.sized, len, room))
            ∙ ap (λ zs. zs ++ byte ∷ []) (h.held ∙ take_all 63 line (omega (arith, room)))
            ∙ sym (take_all 63 (line ++ byte ∷ []) (omega (arith, longer, room)));
      }

  joins_full : cli_line_buf_len - 1 ≤ length line → HoldsLine (line ++ byte ∷ []) b
  joins_full full =
      let longer = length-append line (byte ∷ []) in
      record {
        sized = h.sized;
        filled = ground (arith, h.filled);
        held = h.held ∙ sym (take-append 63 line (byte ∷ []) full);
      }

  -- If the line buffer holds a line, cut to 63 bytes, then a byte that is no line end joins the
  -- line and the buffer holds the longer one, cut again; and a line end runs a command, with the
  -- reply that the cut line deserves, and leaves the buffer with the empty line.
  pub comms_byte-ByteTaken : ByteTaken byte line (comms_byte byte b)
  unfolding comms_byte add32
  comms_byte-ByteTaken = elim (Bool-cases (is_line_end byte)) [
    | inl end ↦ rw end (record {
      joins = λ e. absurd (ground arith);
      ends = λ e. (set b.line_buf b.line_len 0, refl, same_command, ends_line);
    })
    | inr char ↦ elim (Bool-cases (ltb (length line) (cli_line_buf_len - 1))) [
      | inl room ↦
          let test : ltb b.line_len (cli_line_buf_len - 1) ≡ true = ground (arith, h.filled) in
          let next : add32 b.line_len 1 ≡ suc b.line_len = ground (arith, h.filled) in
          rw char (
            rw test (
              rw next (record {
                joins = λ e. (refl, joins_room (ground arith));
                ends = λ e. absurd (ground arith);
              })))
      | inr full ↦
          let test : ltb b.line_len (cli_line_buf_len - 1) ≡ false = ground (arith, h.filled) in
          rw char (
            rw test (record {
              joins = λ e. (refl, joins_full (ground arith));
              ends = λ e. absurd (ground arith);
            }))
    ]
  ]
