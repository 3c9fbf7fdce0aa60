-- ===== src/Lib.antt =====
-- A verification library for Boost.Http.Proto, the sans-I/O HTTP/1 library of this repository.
--
-- The program keeps an HTTP message header as one buffer of octets with a table of the fields in
-- it, and beside them metadata on the five fields that decide about the message: Connection,
-- Content-Length, Expect, Transfer-Encoding and Upgrade. The containers change the buffer and the
-- table, then call a handler that brings the metadata up to date; the handlers read the values by
-- the rules of the RFC grammar; `update_payload` then says how the body is delimited.
--
-- Files:
-- Types, Field: the enumerations and records of include/boost/http_proto (metadata.hpp,
-- detail/header.hpp, error.hpp, field.hpp). `Header` is `detail::header`: its buffer is a list of
-- octets, and the table that the program stores in reverse at the end of that buffer is a list of
-- rows of its own.
-- Grammar: the library Boost.URL, not part of the repository, as a record of functions that all
-- definitions take as an argument. No law of it is assumed but where a theorem states one.
-- Rfc: src/rfc and include/boost/http_proto/rfc. A rule is a function from the octets left to its
-- result and the octets then left. Rfc.List is list_rule.hpp, Rfc.QuotedToken
-- quoted_token_rule.cpp, Rfc.TransferEncoding transfer_encoding_rule.cpp, Rfc.Upgrade
-- upgrade_rule.cpp.
-- Rules: src/rfc/detail/rules.cpp, with the start lines of rfc/detail/rules.hpp, and verify_field_name
-- and verify_field_value of src/fields_base.cpp. Rules.Reads, Rules.Starts, Rules.Own and
-- Rules.Unbroken hold proofs.
-- Header: src/detail/header.cpp. Header.Framing is update_payload, Header.Insert the on_insert
-- handlers, Header.Erase the on_erase handlers, Header.Parse header::parse, each with the function
-- names of the source; the other files below Header hold proofs.
-- Fields: src/fields_base.cpp. Fields.Insert grows the buffer and inserts a line; raw_erase is in
-- Fields, erase_all_impl in Fields.EraseAll, insert_impl in Fields.Checked, set of an
-- id or a name in Fields.Set with two setters of src/message_base.cpp, set of an iterator in
-- Fields.SetAt, erase of an id or a name in Fields.Erase, the constructors and copies in
-- Fields.Copy; the other files hold proofs. Fields.Represents says when buffer and table describe
-- a list of lines.
-- Workspace: src/detail/workspace.cpp and the templates of detail/impl/workspace.hpp, on addresses
-- as numbers; an exception is a value.
-- Serializer: src/serializer.cpp without a filter. Serializer.State is the state, with the circular
-- buffer of Boost.Buffers and the sources of the user as the record Externals, and what is documented
-- of that buffer as the record IsBuffers; Serializer.Start has reset and the start functions,
-- Serializer.Calls prepare, consume and the calls of a stream, Serializer.Arrays array_of_buffers,
-- Serializer.Chunks the chunk header with a reader of the chunked coding. Serializer.Rounds and
-- Serializer.Transfer say how a user sends a message: in rounds of commit, prepare and consume.
-- Parser: src/parser.cpp, of a parser that keeps the body in place. Parser.State is the state, with the
-- buffers of Boost.Buffers as records Storage, IsFlat and IsStorage and `header::parse` as an interface;
-- Parser.Calls has start_impl, prepare, commit and commit_eof, Parser.Parse has parse, on_headers and
-- body. Parser.Delivered, Parser.Bodies, Parser.Begun, Parser.Ended and Parser.Full hold proofs.
-- Message: src/detail/number_string.hpp, the numbers that src/message_base.cpp puts in a header.
-- Names: Names.Methods is src/method.cpp, Names.Statuses src/status.cpp, Names.Fields src/field.cpp
-- with its table of names in Names.Words; Names.Octets, Names.Folding, Names.Found and
-- Names.Recognised hold proofs.
-- Tests: a concrete grammar library and concrete headers, at which the theorems are applied.
--
-- Integers: `offset_type` is 32 bits wide, and the casts to it are written `% 2 ^ 32`. A `size_t`
-- that cannot exceed a buffer is a natural number. The contents of new memory are a parameter.
--
-- What the program does outside its buffers is not followed: number_string makes a list that can be
-- longer than the buffer, which is said where it matters, and header::parse fails with an error of the
-- model, reversed_range, where a limit lies before what is read already.
--
-- Fuel: the loop of header::parse runs on one round more than the fields that the limit leaves, since
-- a round that goes on adds a field. The loop of number_string runs on 20 rounds, one for each digit
-- of a number of 64 bits. The
-- loop of quoted_token_rule runs on one more than the length of its input; each round takes at least
-- two octets, an escape, so it is enough for every input. The reader of the chunked coding, which the
-- program does not have, runs on the length of its input.
--
-- Not modelled: the bodies of a parser that are set by set_body, the filters of the
-- serializer, and the file, compression and service code, which is input and output or a registry. Of
-- the messages, set_keep_alive and set_start_line are not here.
pub mod Base
pub mod Field
pub mod Types
pub mod Grammar
pub mod Rfc
pub mod Header
pub mod Rules
pub mod Fields
pub mod Workspace
pub mod Serializer
pub mod Parser
pub mod Message
pub mod Names
mod Tests
