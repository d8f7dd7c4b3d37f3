-- ===== src/Lib.antt =====
-- The host side of the Android Debug Bridge protocol: the package adb_shell_wifi, as far as it talks to a
-- connected device.
--
-- The parts, and how they interact. A caller uses an AdbDevice (adb_shell_wifi/adb_device.py), which opens a
-- stream for each command and each file transfer, by a fresh local id. Every packet goes through its
-- _AdbIOManager, which writes packets to a transport, reads packets from it, and keeps in a packet store
-- (_AdbPacketStore, adb_shell_wifi/hidden_helpers.py) those that belong to another stream than the one that
-- is being read. A file transfer puts FileSync packets inside the data of a stream, through the send and
-- receive buffers of a _FileSyncTransactionInfo. Before a device takes connections over Wi-Fi the host is
-- paired with it (adb_shell_wifi/pairing): over a TLS session the two sides agree on a key from the code
-- that the device shows, and exchange their PeerInfo under it; the host's is its public key, in the format
-- that adb_shell_wifi/auth/keygen.py writes.
--
-- The files:
--   Constants         adb_shell_wifi/constants.py: commands and FileSync ids as data types, ID_TO_WIRE and
--                     WIRE_TO_ID as functions
--   Errors            adb_shell_wifi/exceptions.py, and the errors that Python raises itself
--   Exec              methods that change an object and may raise, as state passing; Exec.Rules has rules
--                     for what an action keeps and yields, Exec.Gives for what it returns
--   Message           adb_shell_wifi/adb_message.py; Message.Struct has struct.pack and struct.unpack at
--                     the formats of 32-bit words, low byte first
--   TransactionInfo   _AdbTransactionInfo of adb_shell_wifi/hidden_helpers.py
--   PacketStore       _AdbPacketStore: a dictionary of dictionaries of queues; a dictionary is a list of its
--                     items in the order of insertion, a queue is a list, oldest first
--   FileSyncInfo      _FileSyncTransactionInfo
--   Transport         adb_shell_wifi/transport/base_transport.py as a record of operations, with the clock;
--                     Transport.Stream has what can be known of a transport, Transport.Script a transport
--                     that plays a recording
--   IoManager         _AdbIOManager: Packets (_read_bytes_from_device, _read_packet_from_device, _send,
--                     _read_expected_packet_from_device), Read (read), Connect (connect, _do_stls_upgrade);
--                     Session has what these do for one stream over a full-duplex transport;
--                     Concurrent has read, send, connect and close of _AdbIOManagerAsync
--                     (adb_shell_wifi/adb_device_async.py) under the two locks, as tasks in any order
--   Device            AdbDevice: its state, close, connect; Device.Streams (_open, _okay, _clse,
--                     _read_until, _read_until_close, _streaming_command, _service), Device.Services
--                     (exec_out, reboot, root, shell, streaming_shell), Device.FileSync (_filesync_send,
--                     _filesync_flush, _filesync_read, _filesync_read_buffered), Device.Files (list, stat,
--                     pull, push, and get_files_to_push of adb_shell_wifi/hidden_helpers.py); Device.Session
--                     follows a service, and a pull, from its OPEN to its CLSE
--   Transport.Tcp     TcpTransport of adb_shell_wifi/transport/tcp_transport.py, and Transport.Tls TlsTransport
--                     of adb_shell_wifi/transport/tls_transport.py, over Transport.Sockets: what they call
--                     of socket, select and ssl
--   Transport.TcpAsync  TcpTransportAsync of adb_shell_wifi/transport/tcp_transport_async.py, and
--                     Transport.TlsAsync TlsTransportAsync of adb_shell_wifi/transport/tls_transport_async.py,
--                     over Transport.AsyncStreams: what they call of asyncio
--   Transport.Usb     UsbTransport of adb_shell_wifi/transport/usb_transport.py over libusb; Transport.Usb.Finding
--                     has how a device is found
--   Pairing           adb_shell_wifi/pairing: Packets (PeerInfo and the packet headers of connection.py), Auth
--                     (PairingAuthCtx of auth.py), Channel (_PyOpenSSLTransport of pairing_device.py),
--                     Connection (PairingConnection of connection.py), Device (pair of pairing_device.py)
--   Auth              adb_shell_wifi/auth/keygen.py: Keygen (the struct of a public key), KeyFiles (the files);
--                     Auth.Base64 has the standard library's base64
--   Mdns              adb_shell_wifi/mdns: Names (texts as keys), Discovery (discovery.py), Async
--                     (discovery_async.py)
--   Tests             runs on concrete inputs
--
-- Bytes are numbers, and byte strings are lists of them. A time is a number of microseconds, and reading
-- the clock is an operation of the transport's state, so that two readings may differ.
--
-- Loops that wait for the device have no bound in the source but the clock. They run on fuel here, one unit
-- for each round, and running out is an error of its own that no source code raises. One unit more than the
-- limit on a read has microseconds is enough for `read`, where each reading of the clock is later than the
-- one before: a round that does not end the loop reads the clock within the limit. A loop that reads n bytes
-- needs at most n units where each round reads a byte at least. The loop over the packet store takes its
-- fuel from the number of packets in it. The loops over streams (_read_until_close, list, pull) go on as
-- long as the device sends, and so does their fuel. In Pairing.Channel, a fuel above the number of bytes and
-- above the number of times that the session puts a read off is enough. In Device.Session, a fuel of 24 at
-- least, above the number of packets that come between two of the stream's own, above the number of pieces of
-- the output or of the blocks of a pulled file, and as large as the longest piece (and, in a pull, as the
-- number of pieces), is enough. In Mdns.Async, one round more than the set has
-- elements is.
--
-- What is a parameter: sockets, select, ssl, asyncio's streams and libusb below the transports, and for the I/O
-- manager the whole transport; zeroconf; the signers and the certificates of adb_shell_wifi/auth; of the packages, SPAKE2, HKDF and
-- AES-GCM, the OpenSSL session, RSA key generation and _modinv; the host's and the user's name, the local
-- file system, the user's callbacks. What is relied on of them stands in records: Carries, Arrives,
-- Agrees, Seals, Stores, IsKey, Waits, Closes, HasSockets, IsFresh, IsIterator and those of
-- Transport.Stream.
--
-- What is not modelled: a close of the transport that raises, as seen by the I/O manager and AdbDevice (the
-- transports' own close may raise); a callback of connect under the locks, and the lock on the local id; AdbDeviceAsync of
-- adb_shell_wifi/adb_device_async.py, base_transport_async.py and pairing_device_async.py, which await the same
-- calls; the classes AdbDeviceTcp, AdbDeviceTls and AdbDeviceUsb, which only build a transport; the signers
-- and adb_shell_wifi/auth/x509.py, which call packages; log messages and the texts of exceptions, and what
-- is only asked for them (usb_info); the lossy decoding of output (the bytes are kept, with a mark); a
-- generator that its caller abandons before its end.
pub mod Common
pub mod Errors
pub mod Exec
pub mod Constants
pub mod Message
pub mod TransactionInfo
pub mod PacketStore
pub mod FileSyncInfo
pub mod Transport
pub mod IoManager
pub mod Device
pub mod Pairing
pub mod Auth
pub mod Mdns
mod Tests
