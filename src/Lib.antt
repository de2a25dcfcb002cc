-- ===== src/Lib.antt =====
-- lpctools: programming NXP LPC microcontrollers over a serial line, by the ISP protocol of their boot ROM.
--
-- The program has three executables. lpcisp (lpcisp.c) offers single ISP commands, whose arguments are
-- checked in isp_wrapper.c; lpcprog (lpcprog.c) flashes, dumps and erases a part with prog_commands.c, by
-- the part's description (parts.c); lpccheck (check.c) checks an image. Both of the first send requests
-- and blocks of data with isp_commands.c, which uses the line and uuencoding functions of isp_utils.c.
--
-- Base        shared names, tests, lists, memory, bits and the C type int
-- Uu          isp_utils.c: isp_uu_encode, isp_uu_decode
--             Uu/Chars, Uu/Encode, Uu/Line, Uu/RoundTrip, Uu/Decode and Uu/Corrupt are about them
-- Block       isp_commands.c: get_remaining_blocksize, get_nb_blocks, calc_checksum
--             Block/Sizes, Block/Checksum
-- Text        the C library's strtoul, atoi, %u, %08x and strncmp, as far as the program uses them
--             Text/Decimal, Text/Hex
-- Machine     the line, the static variables and the commands on them
--             Machine/Steady: commands that return on every line; Machine/Samples: states for the runs
-- File        isp_utils.c: isp_file_to_buff, isp_buff_to_file; File/Contents, File/Sizes, File/Written
-- Serial      isp_utils.c: isp_serial_write, isp_serial_read, isp_serial_empty_buffer
--             Serial/Setup: isp_serial_open
--             Serial/Terminates, Serial/Reading, Serial/Slow, Serial/Writing, Serial/Emptying,
--             Serial/EchoLine; Serial/Idle, Serial/IdleEcho and Serial/Pause are about a line that
--             takes and hands over all at once, Serial/Silence about one with nothing to come,
--             Serial/Babble about one without an end of line
-- Command     isp_commands.c: isp_ret_code, the isp_send_cmd_ functions, and isp_cmd_unlock,
--             isp_cmd_part_id, isp_cmd_read_uid and isp_cmd_boot_version
--             Command/Steady, Command/Printed, Command/Replies, Command/PartId
-- Connect     isp_commands.c: isp_connect; Connect/Steady, Connect/Dialogue, Connect/Silent
-- Transfer    isp_commands.c: isp_send_buf_to_ram, isp_read_memory
--             sending: Transfer/Steady, Transfer/Send, Transfer/Delivers, Transfer/Blocks,
--             Transfer/Refusals; reading: Transfer/Fetch, Transfer/GoodBlock, Transfer/BadBlock,
--             Transfer/Retries, Transfer/Receives, Transfer/Recovers, Transfer/Refused
-- Wrapper     isp_wrapper.c: the commands of lpcisp; Wrapper/Steady, Wrapper/Sizes, Wrapper/Ends
-- Prog        prog_commands.c: the commands of lpcprog; Prog/Erase, Prog/Erases, Prog/Image, Prog/Bounds,
--             Prog/Flashes, Prog/Programs, Prog/Dump, Prog/Outcomes, Prog/Safe, Prog/Protected
-- Parts       parts.c, parts.h: find_part_in_file and the functions under it
--             Parts/Format, Parts/Lookup, Parts/Sound, Parts/Samples
-- Dump        isp_utils.c: isp_dump, as the text that it prints; Dump/Lines, Dump/Rounds, Dump/Prints
-- Host        what the executables meet on the host, and what a command gives
-- Dispatch    lpcisp.c, lpcprog.c: the look-up of a command by its name; Dispatch/Prefix
-- Lpcisp      lpcisp.c: the table of commands, isp_handle_command, main
--             Lpcisp/Names, Lpcisp/Ends, Lpcisp/Session
-- Lpcprog     lpcprog.c: prog_connect_and_id, the table of commands, prog_handle_command, main
--             Lpcprog/Names, Lpcprog/Ends, Lpcprog/Session, Lpcprog/WholeRuns
-- Check       check.c: main of lpccheck, with its own copy of the checks of flash_target
--             Check/Verdicts, Check/Update, Check/Whole, Check/Short, Check/Agrees
--
-- The modules called Runs hold tests and the theorems at concrete inputs.
--
-- State. A World has the line and the static variables. The line is a script: what each read() meets
-- (bytes, no data yet, an error, the end) and what each write() meets (room for some bytes, no room, an
-- error), and the bytes that were sent. Behind the script of reads the line is silent, and behind that of
-- writes it takes everything. A write() of some bytes takes at least one of them. The script is finite, so
-- that a device that goes on sending for ever is not described; a file is a finite script of reads, too, and
-- one whose data never come is not described either. The loops of isp_serial_empty_buffer and
-- isp_file_to_buff have no bound of their own on such input. A command is a function from a World to a
-- result and a World; a function of the source that stores through a pointer returns what it stored, and
-- what an array holds before it is written is the field `junk`, one memory for all of them. Messages are
-- not modelled, but the values that a command prints as its result are reports.
--
-- The host. A Host says what each file holds and how it takes what is written, which serial devices open,
-- which speeds they have, and whether malloc() succeeds. An Outcome is the result of a command and what it
-- wrote to its output file, if it opened one. Two things of the C library and of unwritten memory that
-- find_part_in_file depends on are parameters of it: `einval`, whether strtoul sets errno to EINVAL where
-- there is no number, and `behind`, what the line buffer holds behind each line. getopt_long() is not part
-- of the repository: each main is given the options that it returns, in order, and the arguments it leaves.
--
-- Numbers. Bytes, unsigned int and uint32_t are native numbers with the wrap written out; an int is a ℤ of
-- Base/Int. unsigned long has 64 bits. `char` is signed, and the host is little-endian.
--
-- Fuel. uu_encode and encode_line have a round for each byte, and decode_line one for each byte of the line;
-- the decoder's rounds and those of the line functions are enough by the theorems below: each round of the
-- latter takes or stores a byte, or counts towards the 102 empty rounds that end the loop. A block is sent at
-- most three times, so that isp_send_buf_to_ram has four rounds for each block; isp_read_memory has five.
-- isp_dump has two rounds for each byte.
--
-- Not modelled: trace, help, version and warning output, with isp_warn_args, which only print; the settings
-- of termios other than those of isp_serial_open, and isp_serial_close, which only closes the line;
-- getopt_long().
pub mod Base
pub mod Uu
pub mod Block
pub mod Dump
pub mod Text
pub mod Check
pub mod Dispatch
pub mod Host
pub mod Lpcisp
pub mod Lpcprog
pub mod Machine
pub mod Parts
pub mod File
pub mod Serial
pub mod Command
pub mod Connect
pub mod Transfer
pub mod Wrapper
pub mod Prog
