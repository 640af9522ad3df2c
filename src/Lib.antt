-- ===== src/Lib.antt =====
-- A model of voicechat, a program for voice calls between at most five peers, and its theorems.
--
-- A session takes audio from a device, suppresses noise in it, decides by voice detection and an
-- input gate whether it is sent, encodes it, seals it and sends it to every peer. What comes in over
-- UDP is taken apart, opened, and handled by its type: audio goes through a replay filter and the
-- decoder into the jitter buffer of its peer, from which playout mixes all peers; the other types
-- carry the handshake (JOIN, PEER_LIST, HELLO, HELLO_ACK), the exchange of keys, the pings that
-- measure latency, and keepalives.
--
-- Files, and the code they are about:
--   Net        vc-core/src/net.rs: headers, packets, JOIN and PEER_LIST payloads, the socket; the
--              payload of a ping is from latency.rs and that of a key exchange from key_exchange.rs
--   Crypto     vc-core/src/crypto.rs: CryptoContext, build_nonce, ReplayFilter
--   KeyExchange, Jitter, Latency, Vad, Input, Dsp, Mixer, Codec, Peer
--              vc-core/src/key_exchange.rs, jitter.rs, latency.rs, vad.rs, input.rs, dsp.rs, mixer.rs,
--              codec.rs and peer.rs
--   Session    vc-core/src/lib.rs. Session/Incoming is Session::handle_incoming, whose arms are the
--              handlers of Audio, Handshake and Control; World is its state and the monad of its
--              steps. Start is Session::new and what Session::run does before its loop; Loop is the
--              loop, a round at a time, over the variables of State, with the capture side in
--              Capture and Frames, the playout side in Playout, and what it sends in Outgoing;
--              Loop/Shared has the configuration and what the user interface shares, and Handle what
--              the owner of a session holds. Keeps and Kept have the rules by which what the single
--              operations keep is kept by packets and rounds; Tables and Forward use them
--   Loopback   vc-core/src/lib.rs: run_loopback
--   Audio      vc-core/src/audio.rs: device and configuration choice, the two callbacks
--   Upnp       vc-core/src/upnp.rs
--   Cli, Tray  vc-cli/src/main.rs and vc-tray/src/main.rs
--   Base       bytes, results, lists, bits, maps and the operations on floats that the code uses
--   Tests      concrete values, and the theorems at them
-- A module's child modules hold its proofs, and are named for what they prove. A struct is a record
-- and a method a function that returns the new state; names are those of the code.
--
-- Numbers of the machine are natural numbers; wrapping is written out, as in the sequence numbers of
-- Jitter. A result is ok, err with the message's name, or panic where an index is out of bounds. A
-- step of a session returns its result with the state it leaves, so that what a handler changed
-- before it failed stays. A HashMap is an association list with one entry for a key: its order, which
-- the code cannot rely on, is that of insertion, and where the code takes the first key of an
-- unordered map (latency.rs) the choice is a parameter. Times are nanoseconds that the caller passes.
-- A round of the session reads the clock once, where the code reads it in every block.
--
-- Loops are recursions on a list, but for the loop that cuts samples into frames of 120 (Frames), which
-- has as fuel the number of whole frames. More fuel gives the same result. The callback that averages
-- channels has the number of its frames as fuel, all of which it takes.
--
-- Parameters, for code of other crates: the sockets of the system (Net/Socket), the cipher and
-- Argon2id (Crypto/Aead), X25519 and HKDF (KeyExchange), Opus (Codec), the noise suppressor (Dsp),
-- devices and streams (Audio), the gateway (Upnp), and the arithmetic of f32 and f64 (Base/Floats).
-- What a theorem assumes of them is among its hypotheses. What the operating system answers is in
-- the records Env and Boot, and with each round in the record Tick, which also has what the ring
-- buffers give and take and what the user interface stores. The captured samples of a round become
-- packets before the peers are sent them; the code does both in turns, on separate parts of the
-- state.
--
-- Not modelled: the parsing of arguments, what egui draws of a screen and of its labels, threads other
-- than by the values that they store, and log messages.
pub mod Base
pub mod Net
pub mod Crypto
pub mod Jitter
pub mod Latency
pub mod Vad
pub mod Input
pub mod Dsp
pub mod Mixer
pub mod Codec
pub mod KeyExchange
pub mod Peer
pub mod Session
pub mod Audio
pub mod Loopback
pub mod Upnp
pub mod Cli
pub mod Tray
pub mod Tests
