-- ===== src/Hit/PrintkKept.antt =====
-- gtp.c, `gtp_action_printk`: it leaves the trace frame alone.
use kgtp.Base.{ℕ, refl, Bool, true, false, Option, none, some, List, [], ◌∷◌, ◌==◌, if-elim}
use kgtp.Ring.Bytes.{Memory, store}
use kgtp.Hit.{Hit, Outside, Shown}
use kgtp.Hit.Frame.{put_bytes}
use kgtp.Hit.Printk.{
  print_line, end_text, print_buffer, print_read, print_named, read_size, action_printk, shown,
  auto_format,
}
use kgtp.Hit.Ok.{SameFrame, SameFrame-trans}

-- `gtp_action_printk` has no part in the frame.
line-SameFrame :
    (name : List ℕ) (names : List (List ℕ)) (x : Option Shown) (hit : Hit)
    → SameFrame hit (print_line name names x hit).0
line-SameFrame name names none hit = record { same_rb = refl; same_next = refl; same_locked = refl }
line-SameFrame name names (some x) hit = record {
  same_rb = refl;
  same_next = refl;
  same_locked = refl;
}

-- The end of the text in the buffer is not in the frame.
ended-SameFrame :
    (format : ℕ) (name : List ℕ) (names : List (List ℕ)) (x : Option Shown) (hit : Hit)
    → SameFrame hit (print_line name names x (end_text format hit)).0
ended-SameFrame format name names x hit =
    if-elim (λ h. SameFrame hit (print_line name names x h).0) (format == 4)
      (record hit { pbuf = store 1 hit.pbuf 255 0 }) hit
      (λ e.
        SameFrame-trans hit (record hit { pbuf = store 1 hit.pbuf 255 0 }) _
          (record { same_rb = refl; same_next = refl; same_locked = refl })
          (line-SameFrame name names x (record hit { pbuf = store 1 hit.pbuf 255 0 })))
      (λ e. line-SameFrame name names x hit)

buffer-SameFrame :
    (name : List ℕ) (names : List (List ℕ)) (size : ℕ) (hit : Hit)
    → SameFrame hit (print_buffer name names size hit).0
unfolding print_buffer
buffer-SameFrame name names size hit =
    ended-SameFrame (auto_format hit.printk_format size) name names
      (shown (auto_format hit.printk_format size) size hit.pbuf) hit

filled-SameFrame :
    (name : List ℕ) (names : List (List ℕ)) (size : ℕ) (m : Memory) (hit : Hit)
    → SameFrame hit (print_buffer name names size (record hit { pbuf = m })).0
filled-SameFrame name names size m hit =
    SameFrame-trans hit (record hit { pbuf = m }) _
      (record { same_rb = refl; same_next = refl; same_locked = refl })
      (buffer-SameFrame name names size (record hit { pbuf = m }))

read-SameFrame :
    (name : List ℕ) (names : List (List ℕ)) (size : ℕ) (r : List ℕ × Bool) (hit : Hit)
    → SameFrame hit (print_read name names size r hit).0
read-SameFrame name names size (got, true) hit =
    filled-SameFrame name names size (put_bytes hit.pbuf 0 got) hit
read-SameFrame name names size (got, false) hit = record {
  same_rb = refl;
  same_next = refl;
  same_locked = refl;
}

named-SameFrame :
    (o : Outside) (task_read : Bool) (ns : List (List ℕ)) (addr size : ℕ) (hit : Hit)
    → SameFrame hit (print_named o task_read ns addr size hit).0
named-SameFrame o task_read [] addr size hit = record {
  same_rb = refl;
  same_next = refl;
  same_locked = refl;
}
named-SameFrame o task_read (name ∷ names) addr size hit =
    let n = read_size hit.printk_format size in
    if-elim (λ (r : Hit × Bool). SameFrame hit r.0) (size == 0)
      (print_buffer name names 8 (record hit { pbuf = store 8 hit.pbuf 0 addr }))
      (print_read name names n (o.read_memory task_read hit addr n) hit)
      (λ e. filled-SameFrame name names 8 (store 8 hit.pbuf 0 addr) hit)
      (λ e. read-SameFrame name names n (o.read_memory task_read hit addr n) hit)

pub action_printk-SameFrame :
    (o : Outside) (task_read : Bool) (addr size : ℕ) (hit : Hit)
    → SameFrame hit (action_printk o task_read addr size hit).0
unfolding action_printk
action_printk-SameFrame o task_read addr size hit =
    named-SameFrame o task_read hit.printk_str addr size hit
