-- ===== src/Hit/Printk.antt =====
-- gtp.c, `gtp_action_printk`. `true` is the result 0.
use kgtp.Base.{
  ℕ, zero, suc, ◌+◌, ◌-◌, ◌*◌, ◌^◌, Bool, true, not, ◌&&◌, ◌||◌, Option, none, some, List, [], ◌∷◌,
  ltb, ◌==◌, if◌then◌else◌, min,
}
use kgtp.Ring.Bytes.{Memory, load, store}
use kgtp.Hit.{
  Hit, Outside, Line, Shown, number, text, bytes, Conversion, conv_d, conv_u, conv_x, stop_efault,
  stop_agent_expr_code_error, stop,
}
use kgtp.Hit.Frame.{put_bytes}

-- `GTP_PRINTF_MAX`
abbrev pub printf_max : ℕ
printf_max = 256

-- `GTP_PRINTK_FORMAT_A` … `GTP_PRINTK_FORMAT_B`
abbrev pub format_a : ℕ
format_a = 0

abbrev pub format_d : ℕ
format_d = 1

abbrev pub format_u : ℕ
format_u = 2

abbrev pub format_x : ℕ
format_x = 3

abbrev pub format_s : ℕ
format_s = 4

abbrev pub format_b : ℕ
format_b = 5

-- A number of `n` bytes that is signed, as the `int` that `printk` gets.
abbrev pub to_int : ℕ → ℕ → ℕ
to_int n v = if ltb v (2 ^ (8 * n - 1)) then v else v + 2 ^ 32 - 2 ^ (8 * n)

-- The `switch (size)` of a format: `none` is its `default`.
unfoldable pub shown_number : Conversion → ℕ → Memory → Option Shown
shown_number c size pbuf =
    if size == 1
    then some (number c 4 (to_int 1 (load 1 pbuf 0)))
    else if size == 2
    then some (number c 4 (to_int 2 (load 2 pbuf 0)))
    else if size == 4
    then some (number c 4 (load 4 pbuf 0))
    else if size == 8
    then some (number c 8 (load 8 pbuf 0))
    else none

-- The string at `i`, of at most `n` bytes
unfoldable pub c_string : ℕ → Memory → ℕ → List ℕ
c_string zero m i = []
c_string (suc n) m i = let rest = c_string n m (i + 1) in if m i == 0 then [] else m i ∷ rest

-- `(unsigned int)pbuf[i]` for `n` bytes
unfoldable pub shown_bytes : ℕ → Memory → ℕ → List ℕ
shown_bytes zero m i = []
shown_bytes (suc n) m i = to_int 1 (m i) ∷ shown_bytes n m (i + 1)

-- The size that is read
unfoldable pub read_size : ℕ → ℕ → ℕ
read_size format size =
    let most = min size (printf_max - 1) in
    if not (format == format_s) && not (format == format_b) then min most 8 else most

-- The format that GTP_PRINTK_FORMAT_A stands for
unfoldable pub auto_format : ℕ → ℕ → ℕ
auto_format format size =
    if format == format_a
    then (if size == 1 || size == 2 || size == 4 || size == 8 then format_u else format_b)
    else format

-- The `switch (printk_format)`: `none` is a `default`.
unfoldable pub shown : ℕ → ℕ → Memory → Option Shown
unfolding shown_number c_string shown_bytes
shown format size pbuf =
    if format == format_d
    then shown_number conv_d size pbuf
    else if format == format_u
    then shown_number conv_u size pbuf
    else if format == format_x
    then shown_number conv_x size pbuf
    else if format == format_s
    then some (text (c_string printf_max (store 1 pbuf (printf_max - 1) 0) 0))
    else if format == format_b
    then some (bytes (shown_bytes size pbuf 0))
    else none

-- The line, and `gts->printk_str = gts->printk_str->next;`
abbrev pub print_line : List ℕ → List (List ℕ) → Option Shown → Hit → Hit × Bool
print_line name names none hit = stop stop_agent_expr_code_error hit
print_line name names (some x) hit =
    let line : Line = record { level = hit.printk_level; name = name; shown = x } in
    (record hit { printk_str = names; log = line ∷ hit.log }, true)

-- `pbuf[GTP_PRINTF_MAX - 1] = '\0';`
abbrev pub end_text : ℕ → Hit → Hit
end_text format hit =
    if format == format_s then record hit { pbuf = store 1 hit.pbuf (printf_max - 1) 0 } else hit

-- Behind the read
unfoldable pub print_buffer : List ℕ → List (List ℕ) → ℕ → Hit → Hit × Bool
unfolding shown auto_format
print_buffer name names size hit =
    let format = auto_format hit.printk_format size in
    print_line name names (shown format size hit.pbuf) (end_text format hit)

-- The result of the read
abbrev pub print_read : List ℕ → List (List ℕ) → ℕ → List ℕ × Bool → Hit → Hit × Bool
print_read name names size (got, good) hit =
    let hit' = record hit { pbuf = put_bytes hit.pbuf 0 got } in
    if good then print_buffer name names size hit' else stop stop_efault hit'

module _ (o : Outside) (task_read : Bool) where
  abbrev pub print_named : List (List ℕ) → ℕ → ℕ → Hit → Hit × Bool
  print_named [] addr size hit = stop stop_agent_expr_code_error hit
  print_named (name ∷ names) addr size hit =
      let n = read_size hit.printk_format size in
      if size == 0
      then print_buffer name names 8 (record hit { pbuf = store 8 hit.pbuf 0 addr })
      else print_read name names n (o.read_memory task_read hit addr n) hit

  -- `gtp_action_printk`
  unfoldable pub action_printk : ℕ → ℕ → Hit → Hit × Bool
  unfolding read_size print_buffer
  action_printk addr size hit = print_named hit.printk_str addr size hit
