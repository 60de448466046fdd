-- ===== src/Plugins/Filter.antt =====
-- plugins/filter.c: its handlers rewrite the reactor's buffer in place.
use mathlib.Core.List
use embedded_device_forwarde.Prelude.{
  ◌≤◌, ◌==◌, ap, ap₂, sym, ◌≤◌, take-append_of_le, take-length, le→ltb, ℕ, zero, suc, ◌+◌, ◌-◌, ◌<◌,
  ◌≡◌, refl, ◌∙◌, List, [], ◌∷◌, ◌++◌, take, drop, length, length-append, length-take, length-drop,
  ltb, leb, ◌&&◌, if◌then◌else◌, arith,
}
use embedded_device_forwarde.Prelude.Int.{ℤ, pos}
use embedded_device_forwarde.Prelude.Text.{codes}
use embedded_device_forwarde.Reactor.Route.{Handler, buf_size}
use embedded_device_forwarde.Reactor.Bounds.{Keeps}
use embedded_device_forwarde.Plugins.Keep.{AllKeep, get_handler-KeepsSize, register_handler-AllKeep}
use embedded_device_forwarde.Plugins.Table.{HandlerEntry, register_handler, get_handler}

-- The loop's body on one byte: a lower-case letter becomes a capital.
abbrev pub upper : ℕ → ℕ
upper b = if leb 97 b && leb b 122 then b - 32 else b

-- The loop over the first bytes.
unfoldable pub upper_loop : ℕ → List ℕ → List ℕ
upper_loop zero bytes = bytes
upper_loop (suc n) [] = []
upper_loop (suc n) (b ∷ bytes) = upper b ∷ upper_loop n bytes

unfoldable pub usb_to_uart : Handler
unfolding upper_loop
usb_to_uart bytes len = (upper_loop len bytes, pos len)

-- `memmove(data + 1, data, len)` and `data[0] = 0xAA`; the bytes from `len + 1` on stay.
unfoldable pub uart_to_usb : Handler
uart_to_usb bytes len =
    if ltb 2048 (len + 1)
    then (bytes, pos len)
    else (170 ∷ take len bytes ++ drop (len + 1) bytes, pos (len + 1))

upper_loop-length : (n : ℕ) (bytes : List ℕ) → length (upper_loop n bytes) ≡ length bytes
unfolding upper_loop
upper_loop-length zero bytes = refl
upper_loop-length (suc n) [] = refl
upper_loop-length (suc n) (b ∷ bytes) = omega (arith, upper_loop-length n bytes)

-- The capital at the place of a letter in the alphabet, and any other byte as it is.
unfoldable pub capital_in : List ℕ → List ℕ → ℕ → ℕ
capital_in (small ∷ smalls) (capital ∷ capitals) b =
    let later = capital_in smalls capitals b in if b == small then capital else later
capital_in _ _ b = b

abbrev pub capital : ℕ → ℕ
capital = capital_in (codes "abcdefghijklmnopqrstuvwxyz") (codes "ABCDEFGHIJKLMNOPQRSTUVWXYZ")

run_of : ℕ → ℕ → List ℕ
run_of first zero = []
run_of first (suc n) = first ∷ run_of (suc first) n

capital_in-run_of :
    (n first b : ℕ)
    → 32 ≤ first
    → capital_in (run_of first n) (run_of (first - 32) n) b
      ≡ (if leb first b && ltb b (first + n) then b - 32 else b)
unfolding capital_in run_of
capital_in-run_of zero first b h = ground arith
capital_in-run_of (suc n) first b h =
    ground (arith, capital_in-run_of n (suc first) b (omega arith))

upper-ltb : (b : ℕ) → upper b ≡ (if leb 97 b && ltb b 123 then b - 32 else b)
upper-ltb b = ground arith

upper_lem : (b : ℕ) → upper b ≡ capital b
unfolding run_of
upper_lem b = upper-ltb b ∙ sym (capital_in-run_of 26 97 b (omega arith))

take-upper_loop :
    (bytes rest : List ℕ)
    → take (length bytes) (upper_loop (length bytes) (bytes ++ rest)) ≡ List.map capital bytes
unfolding upper_loop
take-upper_loop [] rest = refl
take-upper_loop (b ∷ bytes) rest = ap₂ (λ c l. c ∷ l) (upper_lem b) (take-upper_loop bytes rest)

tagged :
    (bytes : List ℕ) (len : ℕ)
    → len < buf_size
    → Path
        (List ℕ × ℤ)
        (uart_to_usb bytes len)
        (170 ∷ take len bytes ++ drop (len + 1) bytes, pos (len + 1))
unfolding uart_to_usb
tagged bytes len h = rw (le→ltb 2048 (len + 1) (omega arith))

-- For a packet that the reactor has read, with anything behind it in the buffer, `usb_to_uart`
-- yields as many bytes, each letter of the lower-case alphabet made the capital at its place and
-- every other byte as it was, and `uart_to_usb` yields the packet with the byte 0xAA before it.
pub filter_lem :
    (bytes rest : List ℕ)
    → length bytes < buf_size
    → (let len = length bytes in
        let up = usb_to_uart (bytes ++ rest) len in
        let tag = uart_to_usb (bytes ++ rest) len in
        (up.1 ≡ pos len)
        × (take len up.0 ≡ List.map capital bytes)
        × (tag.1 ≡ pos (len + 1))
        × (take (suc len) tag.0 ≡ 170 ∷ bytes))
unfolding usb_to_uart
filter_lem bytes rest h =
    let len = length bytes in
    let e = tagged (bytes ++ rest) len h in
    let front =
      take-append_of_le len bytes rest (omega arith) ∙ take-length len bytes (omega arith) in
    (
      refl,
      take-upper_loop bytes rest,
      ap (λ r. r.1) e,
      ap (λ r. take (suc len) r.0) e
          ∙ ap (λ l. 170 ∷ take len (l ++ drop (len + 1) (bytes ++ rest))) front
          ∙ ap (λ l. 170 ∷ l)
              (take-append_of_le len bytes (drop (len + 1) (bytes ++ rest)) (omega arith)
                ∙ take-length len bytes (omega arith)),
    )

usb_to_uart-length : (bytes : List ℕ) (len : ℕ) → length (usb_to_uart bytes len).0 ≡ length bytes
unfolding usb_to_uart
usb_to_uart-length bytes len = upper_loop-length len bytes

uart_to_usb-length :
    (bytes : List ℕ) (len : ℕ)
    → len < length bytes
    → length (uart_to_usb bytes len).0 ≡ length bytes
unfolding uart_to_usb
uart_to_usb-length bytes len h =
    let l = length-append (take len bytes) (drop (len + 1) bytes) in
    ground (arith, l, length-take len bytes, length-drop (len + 1) bytes)

-- `plugin_init`, which `dlopen` runs.
unfoldable pub plugin_init : List HandlerEntry → List HandlerEntry
plugin_init table =
    register_handler (codes "filter") (codes "uart_to_usb") uart_to_usb
      (register_handler (codes "filter") (codes "usb_to_uart") usb_to_uart table)

pub plugin_init-AllKeep : (table : List HandlerEntry) → AllKeep table → AllKeep (plugin_init table)
unfolding plugin_init
plugin_init-AllKeep table k =
    register_handler-AllKeep (codes "filter") (codes "uart_to_usb") uart_to_usb
      (register_handler (codes "filter") (codes "usb_to_uart") usb_to_uart table) uart_to_usb-length
      (register_handler-AllKeep (codes "filter") (codes "usb_to_uart") usb_to_uart table
        (λ buf len room. usb_to_uart-length buf len) k)

-- With the filter loaded after other plugins whose handlers write within the reactor's buffer, all
-- handlers that the reactor can find do.
pub plugin_init-Keeps :
    (table : List HandlerEntry) → AllKeep table → Keeps (get_handler (plugin_init table))
plugin_init-Keeps table k name h e =
    get_handler-KeepsSize (plugin_init table) name h (plugin_init-AllKeep table k) e
