-- ===== src/Transport/Usb/Finding/First.antt =====
-- Which device `find_adb` of UsbTransport (transport/usb_transport.py) finds by a serial number.
use adb_shell.Common.{
  ℕ, ◌≡◌, ◌≢◌, ◌⊎◌, refl, sym, ap, ◌∙◌, List, [], ◌∷◌, ◌++◌, Bool, true, Option, none, some, inl,
  inr, if◌then◌else◌, All, Bool-cases, arith,
}
use mathlib.Core.Path.{subst}
use adb_shell.Errors.{Result, ok, err, usb_device_not_found}
use adb_shell.Exec.{Exec, pure, raise, ◌>>=◌}
use adb_shell.Exec.Rules.{bind-eq}
use adb_shell.Transport.Usb.{Libusb, UsbTransport, new_usb, same_path}
use adb_shell.Transport.Usb.Finding.{
  adb_interface, same_interface, first_setting, interface_matcher, matches, serial_matcher,
  find_devices, find_first, find, find_adb,
}

same_path_lem : (a b : List ℕ) → same_path a b ≡ true → a ≡ b
unfolding same_path
same_path_lem [] [] h = refl
same_path_lem [] (b ∷ ys) h = absurd cc
same_path_lem (a ∷ xs) [] h = absurd cc
same_path_lem (a ∷ xs) (b ∷ ys) h = ground (arith, same_path_lem xs ys)

same_path_refl : (a : List ℕ) → same_path a a ≡ true
unfolding same_path
same_path_refl [] = refl
same_path_refl (a ∷ xs) = ground (arith, same_path_refl xs)

module _ {W V G H : Type 0} (l : Libusb W V G H) where
  same_interface_lem : (a b : ℕ × ℕ × ℕ) → same_interface l a b ≡ true → a ≡ b
  same_interface_lem (a0, a1, a2) (b0, b1, b2) h = ground arith

  same_interface_refl : (a : ℕ × ℕ × ℕ) → same_interface l a a ≡ true
  same_interface_refl (a0, a1, a2) = ground arith

  -- None of these settings has the interface.
  abbrev pub Without : ℕ × ℕ × ℕ → List G → Type 0
  Without interface = All (λ g. l.interface_of g ≢ interface)

  -- The first of the settings that has the interface.
  pub record IsSettingOf (interface : ℕ × ℕ × ℕ) (gs : List G) (g : G) : Type 0 where
    pub before : List G
    pub after : List G
    pub listed : gs ≡ before ++ g ∷ after
    pub none_before : Without interface before
    pub suits : l.interface_of g ≡ interface

  setting_cases :
      (interface : ℕ × ℕ × ℕ) (gs : List G)
      → ((first_setting l interface gs ≡ none) × Without interface gs)
        ⊎ ((g : G) × (first_setting l interface gs ≡ some g) × IsSettingOf interface gs g)
  unfolding first_setting
  setting_cases interface [] = inl (refl, tt)
  setting_cases interface (g ∷ gs) =
      let rest = setting_cases interface gs in
      elim (Bool-cases (same_interface l (l.interface_of g) interface)) [
        | inl e ↦ inr (
          g,
          rw e refl,
          record {
            before = [];
            after = gs;
            listed = refl;
            none_before = tt;
            suits = same_interface_lem (l.interface_of g) interface e;
          },
        )
        | inr e ↦
            let other : l.interface_of g ≢ interface = (λ q. absurd (
              ground (
                arith,
                e,
                same_interface_refl interface,
                ap (λ i. same_interface l i interface) q,
              ))) in
            elim rest [
              | inl (q, without) ↦ inl (rw (e, q) refl, (other, without))
              | inr (g', q, found) ↦ inr (
                g',
                rw (e, q) refl,
                record {
                  before = g ∷ found.before;
                  after = found.after;
                  listed = ap (λ l'. g ∷ l') found.listed;
                  none_before = (other, found.none_before);
                  suits = found.suits;
                },
              )
            ]
      ]

  module _ (serial : List ℕ) (serials : V → List ℕ) (timeout : Option ℕ)
      (reads : (v : V) (w : W) → (l.serial_number v w).0 ≡ ok (serials v)) where
    -- Another serial number, or no ADB interface.
    abbrev pub IsOther : V → Type 0
    IsOther v = (serials v ≢ serial) ⊎ Without adb_interface (l.settings v)

    -- The transport of the first device with this serial number and an ADB interface, with the first
    -- setting that has it.
    pub record IsFirst (vs : List V) (u : UsbTransport V G H) : Type 0 where
      pub before : List V
      pub device : V
      pub after : List V
      pub listed : vs ≡ before ++ device ∷ after
      pub none_before : All IsOther before
      pub has_serial : serials device ≡ serial
      pub setting : G
      pub has_interface : IsSettingOf adb_interface (l.settings device) setting
      pub fresh : u ≡ new_usb device setting timeout

    -- The first one, or none.
    abbrev pub Outcome : List V → Result (UsbTransport V G H) → Type 0
    Outcome vs r =
        ((u : UsbTransport V G H) × (r ≡ ok u) × IsFirst vs u)
        ⊎ ((r ≡ err usb_device_not_found) × All IsOther vs)

    abbrev finding : List V → Exec W (UsbTransport V G H)
    finding vs =
        find_devices l (interface_matcher l adb_interface) (some (serial_matcher l serial)) timeout
          (λ u rest. pure u) (raise usb_device_not_found) vs

    module _ (v : V) (vs : List V) (w : W) where
      passed : interface_matcher l adb_interface v ≡ none → finding (v ∷ vs) w ≡ finding vs w
      unfolding find_devices
      passed q = rw (q, find_devices) refl

      asked :
          (g : G)
          → interface_matcher l adb_interface v ≡ some g
          → finding (v ∷ vs) w
            ≡ (if same_path (serials v) serial then pure (new_usb v g timeout) else finding vs)
                (l.serial_number v w).1
      unfolding find_devices
      asked g q =
          ap (λ m. m w) steps
          ∙ bind-eq test after w (ap (λ x. x.0) tested)
          ∙ ap (λ x. after (same_path (serials v) serial) x.1) tested
        where
          test : Exec W Bool
          test = matches l (some (serial_matcher l serial)) (new_usb v g timeout)

          after : Bool → Exec W (UsbTransport V G H)
          after ours = if ours then pure (new_usb v g timeout) else finding vs

          tested : test w ≡ (ok (same_path (serials v) serial), (l.serial_number v w).1)
          tested = bind-eq (l.serial_number v) (λ sn. pure (same_path sn serial)) w (reads v w)

          steps : finding (v ∷ vs) ≡ (test >>= after)
          steps = rw (q, find_devices) refl

    -- A device that is not wanted is passed over.
    behind :
        (v : V) (vs : List V) (r : Result (UsbTransport V G H))
        → IsOther v
        → Outcome vs r
        → Outcome (v ∷ vs) r
    behind v vs r h (inr (e, others)) = inr (e, (h, others))
    behind v vs r h (inl (u, e, f)) = inl (
      u,
      e,
      record {
        before = v ∷ f.before;
        device = f.device;
        after = f.after;
        listed = ap (λ l'. v ∷ l') f.listed;
        none_before = (h, f.none_before);
        has_serial = f.has_serial;
        setting = f.setting;
        has_interface = f.has_interface;
        fresh = f.fresh;
      },
    )

    searched : (vs : List V) (w : W) → Outcome vs (finding vs w).0
    unfolding find_devices interface_matcher
    searched [] w = inr (refl, tt)
    searched (v ∷ vs) w = elim (setting_cases adb_interface (l.settings v)) [
      | inl (q, without) ↦
          subst (λ r. Outcome (v ∷ vs) r.0) (sym (passed v vs w q))
            (behind v vs _ (inr without) (searched vs w))
      | inr (g, q, is_setting) ↦
          subst (λ r. Outcome (v ∷ vs) r.0) (sym (asked v vs w g q))
            (elim (Bool-cases (same_path (serials v) serial)) [
              | inl same ↦ rw same (
                  inl (
                    new_usb v g timeout,
                    refl,
                    record {
                      before = [];
                      device = v;
                      after = vs;
                      listed = refl;
                      none_before = tt;
                      has_serial = same_path_lem (serials v) serial same;
                      setting = g;
                      has_interface = is_setting;
                      fresh = refl;
                    },
                  ))
              | inr other ↦ rw other (
                  behind v vs _
                    (inl (λ e. absurd (
                      ground
                        (arith, other, same_path_refl serial, ap (λ n. same_path n serial) e))))
                    (searched vs (l.serial_number v w).1))
            ])
    ]

-- Where the bus lists its devices and each tells its serial number: `find_adb` with a serial number that is not
-- empty returns a new transport of the first device with this number and an ADB interface, with the first
-- of its settings that has the interface, and raises UsbDeviceNotFoundError if there is no such device.
pub find_adb_lem :
    {W V G H : Type 0} (l : Libusb W V G H) (parse_int : List ℕ → Result ℕ) (c : ℕ) (cs : List ℕ)
    (serials : V → List ℕ) (timeout : Option ℕ)
    (reads : (v : V) (w : W) → (l.serial_number v w).0 ≡ ok (serials v)) (w w1 : W) (vs : List V)
    → l.devices w ≡ (ok vs, w1)
    → Outcome l
        (c ∷ cs)
        serials
        timeout
        reads
        vs
        (find_adb l parse_int (some (c ∷ cs)) none timeout w).0
unfolding find_adb find find_first
find_adb_lem l parse_int c cs serials timeout reads w w1 vs listed =
    subst (λ r. Outcome l (c ∷ cs) serials timeout reads vs r.0)
      (sym (
        bind-eq l.devices (finding l (c ∷ cs) serials timeout reads) w (ap (λ x. x.0) listed)
        ∙ ap (λ x. finding l (c ∷ cs) serials timeout reads vs x.1) listed))
      (searched l (c ∷ cs) serials timeout reads vs w1)
