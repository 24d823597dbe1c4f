-- ===== src/Lib.antt =====
-- The 2.4 GHz radio protocol between the Apex Pro Mini keyboard and its USB receiver
-- (radio/src, radio/include), which both firmwares compile from the same sources, and the update of
-- the keyboard's firmware, its fallback and its crash records (update, bootloader, apex-zmk-g4b).
--
-- The parts of the radio, from the keyboard's keys to the receiver's USB port:
--
--   Input       radio/src/apex_input.c       the keyboard's queue of HID reports; one report's bytes
--   Delivery    radio/src/apex_delivery.c    batches of reports, the receiver's queue of eight, and
--                                            the acknowledgement that reports its two positions
--   Stream      radio/src/apex_stream.c      stop-and-wait fragments for shell and update traffic
--   Packet      radio/src/apex_packet.c      sealing, opening and the replay window
--   Connection  radio/src/apex_connection.c  the four-message handshake that makes a session
--   Hop         radio/src/apex_hop.c         channel maps, slot time and clock packets
--   HopLink     radio/src/apex_hop_link.c    when each end hops, sends and listens
--   Exchange    radio/src/apex_radio_probe.c the receiver's loop over a batch (`input_packet`), with
--                                            `apex_radio_deliver` of dongle/src/hid.c
--   Hid         dongle/src/hid.c             the receiver's HID endpoint and its polling thread
--   Gamepad     radio/include/apex_gamepad.h, dongle/src/gamepad.c
--                                            the receiver's gamepad report and its USB endpoint
--
-- The parts of the update:
--
--   Crc         update/apex_update.c, bootloader/apex_pro_mini_wl/ab_promote.c,
--               apex-zmk-g4b/src/coredump_g4b.c
--                                            the CRC-32, written three times
--   Flash       update/apex_update.h         the operations on both flashes, and actions on them
--   Update      update/apex_update.c, update/apex_update_layout.h
--                                            the download of an image (Update.Journal), its
--                                            verification (Update.Image) and installation
--                                            (Update.Install)
--   Promote     bootloader/apex_pro_mini_wl/ab_promote.c
--                                            the bootloader's access to the flashes, the fallback to
--                                            the staged image (Promote.Restore, on the records of
--                                            Promote.Records) and the report (Promote.Report)
--   Spinor      apex-zmk-g4b/src/spinor_g4b.c, apex-zmk-g4b/src/update_g4b.c (its `io`)
--                                            the keyboard's driver of the NOR flash, which
--                                            implements the operations of Flash
--   Coredump    apex-zmk-g4b/src/coredump_g4b.c, apex-zmk-g4b/src/coredump_g4b.h
--                                            the record of a crash and the ring of four slots that
--                                            it is written to, which the bootloader scans too
--   Rollback    apex-zmk-g4b/src/ab_rollback_g4b.c
--                                            the firmware's tally of boots and its staging of the
--                                            image that the fallback restores
--
-- The keyboard downloads with Update.Journal; the bootloader runs Update.Install on the operations
-- of Promote, and then the fallback. An operation takes the device and gives it with its result.
--
-- The payload of a packet is a batch, an acknowledgement, a stream fragment, a map or a clock.
-- Delivery uses the queue and the report bytes of Input; Connection makes the session of Packet with
-- both nonces; Hop takes the session id for its channel order and seals its packets by Connection;
-- HopLink drives Hop. Each file holds the definitions, one for each C function, under the C name
-- without its prefix; the modules below it hold the proofs, and its Tests the concrete runs.
-- Prelude holds bytes, words, bits, slices and rings of slots.
--
-- Conventions. Structs are records and enums data types. Pointers are taken to be non-null, so the
-- tests for NULL are left out. A buffer with a length is the list of its bytes; an output buffer is
-- the list written, and `capacity` the room the caller gives. Unsigned integers are numbers; where
-- the C code can wrap, `% 2 ^ w` is written out (`u8`, `u32`, `u64`). Error codes are `Error`, and a
-- length returned beside a buffer is the length of the list returned.
--
-- Loops. `gcd` runs Euclid's loop with one round more than its second number, which strictly falls;
-- the search for a stride has as many rounds as there are channels, which is proved to be enough.
-- The loops over queues run over their counts. The loops over an image run on rounds, one for each
-- chunk or page and one for the end: `length / 256 + 2` (`+ 1` in Rollback), and `length / 4096 + 2` pages of
-- 17, which covers a last chunk or page that is not full; out of rounds the update's would fail. The wait for the NOR
-- flash has the 100000 rounds of the source in the bootloader; in the keyboard's driver, where the cycle
-- counter limits it, it has two rounds more than the cycles allowed, which is proved to be enough. The
-- loop over the pages of a write has a round for each byte.
--
-- TinyCrypt is the parameter `Packet.Crypto`: HMAC-SHA256, the AES key schedule and CCM as functions
-- that may fail. `Packet.Delivery.IsCcm` and `Connection.Agreement.IsHmac` state what is relied on:
-- opening undoes sealing, and the lengths of tags and digests; `Connection.Messages.IsWorking`, for
-- the run of a whole handshake, that HMAC and the key schedule succeed.
--
-- The flashes of the update are the parameter `Flash.Io`, a state with operations that may fail;
-- `Flash.Laws.IsFaithful` and `IsLocal` say that reads give what is stored and that an operation
-- changes no other bytes, whether it fails or not. SHA-256 is a function that may fail. The
-- bootloader's hardware is the parameter `Promote.Board`: a transfer on the SPI bus, the vendored
-- driver of the internal flash, its memory, two registers and the watchdog, with
-- `Promote.Hardware.IsBoard` as what is relied on; Promote.Access fills the laws of the flashes from
-- it, and Promote.Boot puts the update and the fallback together.
--
-- The driver of the internal flash holds writes in a cache: what memory shows is behind what was
-- written until a flush, and `IsBoard` says so. Of the NOR flash, `IsBoard` takes the chip not to be busy
-- when the bootloader reads it.
--
-- `Flash.Stores.IsStoring` adds that a write or an erase that succeeds has taken place. Spinor models the
-- keyboard's driver over `Spinor.Spim`, one transaction on its bus and the kernel's lock, with
-- `Spinor.Chip.IsChip` as what is relied on: a chip that is busy ignores commands, and one without its
-- write enable latch stores nothing. What the driver provides is `IsPassive`, `IsLocal` and `IsServing`:
-- the laws on what is read and stored are those of a chip that is not busy when an operation begins, which
-- the driver's operations keep so as long as they succeed. `IsFaithful` and `IsStoring`, on which Update
-- and Rollback run, are the same laws without that condition. Rollback.Threshold puts the firmware and the
-- bootloader together.
--
-- Not modelled: the rest of the radio driver with its registers, timers and interrupts
-- (radio/src/apex_radio_probe.c, radio/src/apex_aes_ecb.c), the USB stack, the vendored bootloader, and
-- the pins and registers of the SPI buses, which are hardware; the shells, the pairing and the two
-- updaters (radio/src/apex_shell_link.c, dongle/src/update.c, apex-zmk-g4b/src/updater_g4b.c and the
-- commands of update_g4b.c), which call what is modelled; the key scan, the link to the scanner and the
-- lighting; text that is printed; and the wiping of stack buffers.
pub mod Prelude
pub mod Input
pub mod Delivery
pub mod Stream
pub mod Packet
pub mod Connection
pub mod Hop
pub mod HopLink
pub mod Coredump
pub mod Crc
pub mod Exchange
pub mod Flash
pub mod Gamepad
pub mod Hid
pub mod Promote
pub mod Rollback
pub mod Spinor
pub mod Update
