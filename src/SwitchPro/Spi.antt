-- ===== src/SwitchPro/Spi.antt =====
-- The reads of the controller's flash memory.
use plank_libvirtualhid.Common.{
  ℕ, zero, suc, ◌+◌, ◌-◌, ◌≤◌, ◌<◌, ◌≡◌, refl, sym, ap, ◌∙◌, true, false, ◌&&◌, some, List, [], ◌∷◌,
  length, get_or, set, take, drop, replicate, min, max, ltb, leb, ◌==◌, if◌then◌else◌, if_elim,
  Bool-cases, inl, inr, length-set, length-take, get_or-set_self, get_or-set_ne, arith,
}
use plank_libvirtualhid.Report.Bytes.{read_u32}
use plank_libvirtualhid.SwitchPro.{
  report_size, factory_stick_calibration, factory_imu_calibration, copy_to, copy_spi_data,
  set_neutral_controller_state, stick_address, imu_address, set_spi_reply, acknowledged,
  subcommand_reply, make_switch_pro_reply,
}

length-copy_to :
    (report : List ℕ) (offset : ℕ) (bs : List ℕ) → length (copy_to report offset bs) ≡ length report
unfolding copy_to
length-copy_to report offset [] = refl
length-copy_to report offset (b ∷ bs) =
    length-copy_to (set report offset b) (offset + 1) bs ∙ length-set report offset b

get_or-cons :
    (b m : ℕ) (bs : List ℕ) → get_or (b ∷ bs) m 0 ≡ (if m == 0 then b else get_or bs (m - 1) 0)
get_or-cons b zero bs = refl
get_or-cons b (suc m) bs = ground arith

set-get_or :
    (report : List ℕ) (offset b i : ℕ)
    → offset < length report
    → get_or (set report offset b) i 0 ≡ (if i == offset then b else get_or report i 0)
set-get_or report offset b i h =
    ground (arith, get_or-set_self report offset b 0 h, get_or-set_ne report offset i b 0)

-- A byte of a report after a copy that stays inside it.
get_or-copy_to :
    (report : List ℕ) (offset : ℕ) (bs : List ℕ) (i : ℕ)
    → offset + length bs ≤ length report
    → get_or (copy_to report offset bs) i 0 ≡ (
        if leb offset i && ltb i (offset + length bs)
        then get_or bs (i - offset) 0
        else get_or report i 0)
unfolding copy_to
get_or-copy_to report offset [] i h = ground arith
get_or-copy_to report offset (b ∷ bs) i h = ground (
  arith,
  get_or-copy_to (set report offset b) (offset + 1) bs i
      (omega (arith, h, length-set report offset b)),
  get_or-cons b (i - offset) bs,
  set-get_or report offset b i (omega arith),
)

get_or-drop : (k i : ℕ) (xs : List ℕ) → get_or (drop k xs) i 0 ≡ get_or xs (k + i) 0
get_or-drop zero i xs = ap (λ j. get_or xs j 0) (let e : i ≡ 0 + i = omega arith in e)
get_or-drop (suc k) i [] = refl
get_or-drop (suc k) i (x ∷ xs) =
    get_or-drop k i xs
    ∙ ap (λ j. get_or (x ∷ xs) j 0) (let e : suc (k + i) ≡ suc k + i = omega arith in e)

length-drop : (k : ℕ) (xs : List ℕ) → length (drop k xs) ≡ length xs - k
length-drop zero xs = omega arith
length-drop (suc k) [] = omega arith
length-drop (suc k) (x ∷ xs) = omega (arith, length-drop k xs)

get_or-take : (n i : ℕ) (xs : List ℕ) → i < n → get_or (take n xs) i 0 ≡ get_or xs i 0
get_or-take zero i xs h = absurd (omega arith)
get_or-take (suc n) i [] h = refl
get_or-take (suc n) zero (x ∷ xs) h = refl
get_or-take (suc n) (suc i) (x ∷ xs) h = get_or-take n i xs (omega arith)

-- A byte of the answer to a read of `requested_size` bytes, after data of the flash are copied in.
get_or-copy_spi_data :
    (reply : List ℕ) (requested_address requested_size data_address : ℕ) (bs : List ℕ) (k : ℕ)
    → length reply ≡ report_size
    → k < 44
    → get_or (copy_spi_data reply requested_address requested_size data_address bs) (20 + k) 0 ≡ (
        if ltb k requested_size
          && leb data_address (requested_address + k)
          && ltb (requested_address + k) (data_address + length bs)
        then get_or bs (requested_address + k - data_address) 0
        else get_or reply (20 + k) 0)
unfolding copy_spi_data
get_or-copy_spi_data reply requested_address requested_size data_address bs k e h =
    let begin = max requested_address data_address in
    let finish = min (requested_address + requested_size) (data_address + length bs) in
    let offset = 20 + (begin - requested_address) in
    let n = min (finish - begin) (length reply - offset) in
    let chosen = take n (drop (begin - data_address) bs) in
    let len : length chosen ≡ min n (length bs - (begin - data_address)) =
      length-take n (drop (begin - data_address) bs)
      ∙ ap (λ m. min n m) (length-drop (begin - data_address) bs) in
    let j = (20 + k) - offset in
    let P : List ℕ → Type 0 = λ t. get_or t (20 + k) 0 ≡ (
      if ltb k requested_size
        && leb data_address (requested_address + k)
        && ltb (requested_address + k) (data_address + length bs)
      then get_or bs (requested_address + k - data_address) 0
      else get_or reply (20 + k) 0) in
    if_elim P (leb finish begin) (λ c. ground (arith, c))
      (λ c.
        if_elim P (leb (length reply) offset) (λ d. ground (arith, d))
          (λ d.
            let fits : offset + length chosen ≤ length reply = ground (arith, len, d) in
            let copied = get_or-copy_to reply offset chosen (20 + k) fits in
            elim (Bool-cases (leb offset (20 + k) && ltb (20 + k) (offset + length chosen))) [
              | inl i ↦
                  let inside : j < n = ground (arith, i, len) in
                  let byte : get_or chosen j 0 ≡ get_or bs (begin - data_address + j) 0 =
                    get_or-take n j (drop (begin - data_address) bs) inside
                    ∙ get_or-drop (begin - data_address) j bs in
                  let same : begin - data_address + j ≡ requested_address + k - data_address =
                    ground (arith, i, len, inside) in
                  let covered : (ltb k requested_size
                        && leb data_address (requested_address + k)
                        && ltb (requested_address + k) (data_address + length bs))
                      ≡ true =
                    ground (arith, i, len, inside, c, d) in
                  rw covered (copied ∙ rw i byte ∙ ap (λ m. get_or bs m 0) same)
              | inr o ↦
                  let missed : (ltb k requested_size
                        && leb data_address (requested_address + k)
                        && ltb (requested_address + k) (data_address + length bs))
                      ≡ false =
                    ground (arith, o, len, c, d, e, h) in
                  rw missed (copied ∙ rw o refl)
            ]))

length-copy_spi_data :
    (reply : List ℕ) (requested_address requested_size data_address : ℕ) (bs : List ℕ)
    → length (copy_spi_data reply requested_address requested_size data_address bs) ≡ length reply
unfolding copy_spi_data
length-copy_spi_data reply requested_address requested_size data_address bs =
    let P : List ℕ → Type 0 = λ t. length t ≡ length reply in
    let begin = max requested_address data_address in
    let finish = min (requested_address + requested_size) (data_address + length bs) in
    let offset = 20 + (begin - requested_address) in
    if_elim P (leb finish begin) (λ _. refl)
      (λ _.
        if_elim P (leb (length reply) offset) (λ _. refl)
          (λ _.
            length-copy_to reply offset (
              take (min (finish - begin) (length reply - offset))
                (drop (begin - data_address) bs))))

get_or-replicate : (n i : ℕ) → get_or {A = ℕ} (replicate n 0) i 0 ≡ 0
get_or-replicate zero i = refl
get_or-replicate (suc n) zero = refl
get_or-replicate (suc n) (suc i) = get_or-replicate n i

-- A copy that ends before a byte leaves it.
get_or-copy_before :
    (report : List ℕ) (offset : ℕ) (bs : List ℕ) (i : ℕ)
    → offset + length bs ≤ length report
    → offset + length bs ≤ i
    → get_or (copy_to report offset bs) i 0 ≡ get_or report i 0
get_or-copy_before report offset bs i h k = ground (arith, get_or-copy_to report offset bs i h)

length-acknowledged :
    (report : List ℕ) (subcommand : ℕ) → length (acknowledged report subcommand) ≡ report_size
unfolding acknowledged set_neutral_controller_state copy_to
length-acknowledged report subcommand = refl

get_or-acknowledged :
    (report : List ℕ) (subcommand k : ℕ) → get_or (acknowledged report subcommand) (20 + k) 0 ≡ 0
unfolding acknowledged set_neutral_controller_state copy_to
get_or-acknowledged report subcommand k =
    sym (get_or-drop 20 k (acknowledged report subcommand)) ∙ get_or-replicate 44 k

make_switch_pro_reply-spi :
    (report : List ℕ)
    → get_or report 0 0 ≡ 0x01
    → get_or report 10 0 ≡ 0x10
    → 16 ≤ length report
    → make_switch_pro_reply report ≡ some (set_spi_reply (acknowledged report 0x10) report)
unfolding make_switch_pro_reply subcommand_reply
make_switch_pro_reply-spi [] first sub long = absurd (omega arith)
make_switch_pro_reply-spi (b ∷ rest) first sub long = ground (arith, first, sub, long)

-- The flash memory: the factory calibrations of the sticks and of the motion sensors, and zeros.
abbrev pub flash : ℕ → ℕ
flash address =
    if leb stick_address address && ltb address (stick_address + 18)
    then get_or factory_stick_calibration (address - stick_address) 0
    else if leb imu_address address && ltb address (imu_address + 24)
    then get_or factory_imu_calibration (address - imu_address) 0
    else 0

-- A request to read the flash is answered, and the data bytes of the answer are those of the flash
-- from the requested address on, as many as are asked for and fit, and zeros after them.
pub make_switch_pro_reply-flash :
    (report : List ℕ) (k : ℕ)
    → get_or report 0 0 ≡ 0x01
    → get_or report 10 0 ≡ 0x10
    → 16 ≤ length report
    → k < 44
    → (make_switch_pro_reply report ≡ some (set_spi_reply (acknowledged report 0x10) report))
      × (get_or (set_spi_reply (acknowledged report 0x10) report) (20 + k) 0
          ≡ (if ltb k (get_or report 15 0) then flash (read_u32 report 11 + k) else 0))
unfolding set_spi_reply
make_switch_pro_reply-flash report k first sub long h =
    let ack = acknowledged report 0x10 in
    let request = take 5 (drop 11 report) in
    let address = read_u32 report 11 in
    let echoed = copy_to ack 15 request in
    let with_sticks =
      copy_spi_data echoed address (get_or report 15 0) stick_address factory_stick_calibration in
    let short = length-take 5 (drop 11 report) in
    let whole = length-acknowledged report 0x10 in
    let zero_before =
      get_or-copy_before ack 15 request (20 + k) (ground (arith, short, whole))
        (ground (arith, short))
      ∙ get_or-acknowledged report 0x10 k in
    let size = length-copy_to ack 15 request ∙ whole in
    (
      make_switch_pro_reply-spi report first sub long,
      ground (
        arith,
        zero_before,
        get_or-copy_spi_data echoed address (get_or report 15 0) stick_address
            factory_stick_calibration k size h,
        get_or-copy_spi_data with_sticks address (get_or report 15 0) imu_address
            factory_imu_calibration k
            (length-copy_spi_data echoed address (get_or report 15 0) stick_address
                factory_stick_calibration
              ∙ size)
            h,
      ),
    )
