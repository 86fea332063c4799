-- ===== src/Lib.antt =====
-- Verification of the programs of the operating systems laboratory: the Lunix:TNG device driver
-- and its helper (Lunix_Device_Driver), the virtio cryptodev
-- (Virtio_Crypto_Chat/virtio-cryptodev), and the chat that runs over it
-- (Virtio_Crypto_Chat/encrypted_chat).
--
-- Lunix:TNG. A sensor network sends packets over a serial line. A helper (lunix-attach.c) locks
-- the TTY, sets it to raw mode and sets the line discipline (lunix-ldisc.c) on it, and takes both
-- back at a signal. The discipline hands every chunk of bytes to the protocol machine
-- (lunix-protocol.c), which stores a packet and, at its end, writes the measurements into the
-- pages of the node's sensor (lunix-sensors.c) and wakes the sleepers. A reader of a character
-- device (lunix-chrdev.c) gets the last measurement as a line of text. lunix-module.c loads and
-- unloads all of it. The build runs mk_lookup_tables.c, which writes the tables that turn
-- measurements into what is shown.
--
-- Virtio cryptodev. In a virtual machine, the guest's driver (guest/crypto-chrdev.c and
-- guest/crypto-module.c) turns open, close and ioctl on its device into messages on a virtqueue;
-- QEMU's device (qemu_driver/virtio-cryptodev.c) makes the calls on the host's /dev/crypto, and
-- the guest waits for the message to come back. guest/test_crypto.c and guest/test_fork_crypto.c
-- test the device from the guest.
--
-- Chat. client.c and server.c of encrypted_chat talk over a socket: each sends what its user types
-- in blocks of 512 bytes, encrypted by a session of a cryptographic device, and shows its user the
-- blocks that it gets.
--
-- Files:
--   Prelude                shared names, Boolean tests on native numbers, lists with native indices
--   Lunix/Kernel           what the driver asks of the kernel, and what it holds of it
--   Lunix/Sensor           lunix.h and lunix_sensor_update; Sensor/Pages: lunix_sensor_init and
--                          lunix_sensor_destroy
--   Lunix/Protocol         lunix-protocol.c: take_byte, parse_loop and parse_state are
--                          lunix_protocol_parse_state, read_fields and last_block the blocks of
--                          lunix_protocol_received_buf. Below it: Valid, the invariant; Machine, a
--                          machine that reads one byte at a time; Stages and Blocks, the loop and
--                          the blocks; Refine, the code against the machine; Keeps, what calls
--                          leave; Frame, RoundTrip and Update, whole packets; Total, the bounds
--                          of the packet and of the sensor table; Memory and Behind, the memory
--                          behind the packet
--   Lunix/Ldisc            lunix-ldisc.c, with a step relation on the availability counter
--   Lunix/Chrdev           lunix-chrdev.c; Chrdev/Format: the text of a value; Chrdev/Register: the
--                          registration. Text, Reading, Reads, Locking and Minor hold its lemmas
--   Lunix/Chrdev/Shared    lunix_chrdev_read by several processes on one open file, as interleaved
--                          steps. Below it: Exclusion, the semaphore; Room and Progress, that a
--                          process that waits can go on; Alone, one process against Lunix/Chrdev
--   Lunix/Measure          from a packet to the text that a reader gets, through all of the driver
--   Lunix/Tables           mk_lookup_tables.c. Below it: Initialiser, the numbers of a table; Whole,
--                          all that is written; Shown, the tables in the character device
--   Lunix/Module           lunix-module.c; Module/Load: what a load takes and gives
--                          back where it fails; Module/Unload: the unload after it
--   Attach/Termios         the settings of a TTY in lunix-attach.c; Termios/Mode: what setting them
--                          leaves
--   Attach/Lock            tty_already_locked and tty_lock, which is tty_lock or tty_unlock by its
--                          mode; Lock/Exclusion: the lock between processes
--   Attach/Line            tty_open (find_line, then set_up), tty_restore, tty_close, main;
--                          Line/Restore: what the setting up leaves; Line/Close: closing after it;
--                          Line/Run: a whole run
--   Attach/Flow, System    early returns; the calls of the system
--   Crypto/Message         the buffers of a message, by their types
--   Crypto/Host            vq_handle_output; Crypto/Guest: the guest's file operations;
--                          Crypto/Devices: crypto-module.c and the lookup of a device by its minor
--                          number; Crypto/Through: the guest on a queue that the host serves
--   Crypto/Queue           processes of a guest and the host on one virtqueue, under the spinlock of
--                          the device; Queue/Pending and Atomic: what they receive;
--                          Answer: that they can receive it; Stuck: that they cannot where the
--                          virtqueue refused their element
--   Crypto/Selftest        test_crypto.c and test_fork_crypto.c. Below it: Passing, what a passed test
--                          means; InGuest, the test on the guest's device
--   Chat/Write             insist_write; Write/Delivery: what comes of it
--   Chat/Block             the global data, encrypt and decrypt; Block/Copy: the copying in decrypt;
--                          Block/Overrun: where it does not end
--   Chat/Talk              read_decrypt_write, read_encrypt_write and the loop in main, of which
--                          receive_turn, send_turn and talk_turn are one turn. Below it: Steps,
--                          Receive, Send and Exchange, a line on its way; Files and Kept, which
--                          files are open
--   Chat/Session           the session with the device; Chat/Client and Chat/Server: main and the
--                          signal handler of each program; Server/Closing: files after a connection
--   Chat/Guest             the chat on the guest's device of virtio-cryptodev; Guest/Guests: a line
--                          between two virtual machines
--   Chat/Flow, System      steps that may end the program, with conditions on how they end (Ends)
--                          and on what they leave (Leaves); the calls of the system
--   Lunix/Tests, Lunix/Tests/Readers, Lunix/Tests/Sharing, Lunix/Tests/Tables, Attach/Tests,
--   Crypto/Tests, Crypto/Tests/Passes, Crypto/Tests/Sharing, Chat/Tests, Chat/Tests/Serving,
--   Chat/Tests/Machines    runs at concrete inputs
--
-- State and faults. A C structure is a record. An Option result is none where the code follows a
-- NULL or an out-of-range pointer; in the user programs, which also return early or exit, such a
-- step is a fault or an overrun. Results 0 and -errno are the type Ret. A lock is implied where
-- the code holds it over a whole operation; the semaphore of an open character device is a
-- counter, since its balance is a matter of its own. A store behind the array of a packet changes
-- nothing in the model, and a position of 0 less one is 0, where the code would leave the array;
-- Lunix/Protocol/Behind and Lunix/Protocol/Valid are about the states that do not come there.
-- Between readers of one open file a step runs from one call of down, up or wait_event to the
-- next. Loops are structural recursion on the bytes, sensors or turns left. The digits of a number
-- run on fuel one above the number; each step divides it by ten, so it is enough. insist_write
-- runs on the number of its bytes, which is enough where each write takes one. The other loops of
-- the chat, which end when a peer or a user says so, run on turns: a loop that has not ended after
-- them is called endless. The loops of the table generator have fuel for their 16384 turns and the
-- last test. Machine widths are written out: size_t sums in a read, the conversion of a long to an
-- int, the 32-bit minor counter, and descriptors as 32-bit words.
--
-- Parameters. The kernel's answers (pages, registrations, what a sleep returns, whether a copy
-- from or to the user succeeds), the lookup tables in the driver, the clock (cut to the 32 bits of
-- a time stamp), the build's LUNIX_DEBUG, the arithmetic of doubles in the table generator, the
-- virtqueue, and the host's /dev/crypto; for the user programs, records of the system's calls over
-- its state, and the bytes in memory around an array that the code reads. Records of laws state
-- what is documented of those calls, where a theorem needs it. A sleeping read goes through a list
-- of turns, one for each time that the kernel runs it; a read that is still asleep at the end of
-- the list says so.
--
-- Not modelled: the riddles, short programs that set up files and descriptors for a program that
-- is not here; generated and vendored files; what declares the device's type to QEMU. Output for
-- debugging and on the standard error is left out, but for the counter that LUNIX_DEBUG adds to
-- the parse loop, and for the bytes that the guest's ioctl and the host's handler print: where
-- there is none to print, they fault. In the guest's ioctl, requests for memory that the code does
-- not test are granted, and the initialisation vector that a host may write back is left out,
-- since the guest never reads it. In the chat, a signal comes in select, in accept or by raise;
-- the functions that client.c and server.c share are modelled once; atoi and the byte order of
-- addresses are left to the system.
pub mod Prelude
pub mod Lunix
pub mod Attach
pub mod Crypto
pub mod Chat
