-- ===== src/Errors.antt =====
-- exceptions.py, and the Python errors that the code below can meet: one constructor for each class.
-- Messages are left out, except where the text comes from the device.
use adb_shell.Common.{ℕ, List, Option, ◌≡◌, refl, ◌⊎◌, inl, inr}

-- usb1.USBError: USBErrorTimeout, USBErrorNotFound, and the others.
pub data UsbFault : Type 0 where
  timed_out not_found other_fault : UsbFault

pub data Error : Type 0 where
  -- exceptions.py; the payloads are the device's bytes
  adb_command_failure : List ℕ → Error
  adb_connection : Error
  adb_timeout : Error
  device_auth : Error
  invalid_checksum : Error
  invalid_command : Error
  invalid_response : Error
  device_path_invalid : Error
  push_failed : List ℕ → Error
  tcp_timeout : Error
  -- PairingException of pairing/connection.py
  pairing_failed : Error
  -- of the ssl module and of OpenSSL.SSL; the first three say what the session waits for, or that the
  -- peer closed it
  want_read want_write zero_return ssl_error : Error
  -- OSError, which the socket module's errors are
  os_error socket_timeout : Error
  -- asyncio.TimeoutError, which is no OSError before Python 3.11
  asyncio_timeout : Error
  -- a USBError, and what UsbTransport makes of it
  usb_error : UsbFault → Error
  usb_read_failed usb_write_failed : Option UsbFault → Error
  usb_device_not_found : Error
  -- what a transport, a signer, a file or a package raises, by a number
  external : ℕ → Error
  -- raised by Python itself
  value_error : Error
  struct_error : Error
  key_error : Error
  type_error : Error
  queue_empty : Error
  runtime_error : Error
  overflow_error : Error
  zero_division : Error
  assertion_error : Error
  attribute_error : Error
  -- no Python value: a loop ran out of the rounds that the model allows it
  out_of_fuel : Error

pub data Result {ℓ} (A : Type ℓ) : Type ℓ where
  ok : A → Result A
  err : Error → Result A

pub Result-cases {ℓ} :
    {A : Type ℓ} (r : Result A) → ((a : A) × (r ≡ ok a)) ⊎ ((e : Error) × (r ≡ err e))
Result-cases (ok a) = inl (a, refl)
Result-cases (err e) = inr (e, refl)

pub ok_inj {ℓ} : {A : Type ℓ} {x y : A} → ok x ≡ ok y → x ≡ y
ok_inj e = cc
