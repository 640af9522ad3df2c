-- ===== src/Audio/Opening.antt =====
-- Which configuration a device of vc-core/src/audio.rs is opened with.
use voicechat.Base.{
  ℕ, ◌≤◌, List, ◌∷◌, [], ◌++◌, ◌≡◌, ◌≢◌, refl, sym, ap, ◌∙◌, ok, err, some, none, Option, All,
  Bool-cases, Option-cases, if◌then◌else◌, arith, ltb, ◌==◌, inl, inr, ◌⊎◌,
}
use voicechat.Base.Bytes.{play_failed, no_supported_config}
use voicechat.Audio.{
  StreamConfig, default_size, Host, build_stream_config, both_sizes, candidate_configs,
  select_device, try_configs, start,
}

-- One of the configurations is `config`.
abbrev Among : StreamConfig → List StreamConfig → Type 0
Among config [] = ⊥
Among config (c ∷ cs) = (c ≡ config) ⊎ Among config cs

module _ (host : Host) where
  -- The first configuration that the device accepts decides: it is played, or the start of the stream
  -- fails. When all are rejected there is none.
  pub try_configs_first :
      (device : host.Device) (rejected rest : List StreamConfig) (config : StreamConfig)
      (stream : host.Stream)
      → All (λ c. host.build_stream device c ≡ none) rejected
      → host.build_stream device config ≡ some stream
      → (try_configs host device (rejected ++ config ∷ rest)
          ≡ (if host.play stream then ok (config, stream) else err play_failed))
        × (try_configs host device rejected ≡ err no_supported_config)
  unfolding try_configs
  try_configs_first device [] rest config stream all accepted = rw accepted (refl, refl)
  try_configs_first device (r ∷ rejected) rest config stream all accepted =
      ground (arith, all.0, try_configs_first device rejected rest config stream all.1 accepted)

  try_configs-Among :
      (device : host.Device) (configs : List StreamConfig) (config : StreamConfig)
      (stream : host.Stream)
      → Among config configs
      → host.build_stream device config ≡ some stream
      → try_configs host device configs ≢ err no_supported_config
  unfolding try_configs
  try_configs-Among device [] config stream among accepted e = among
  try_configs-Among device (c ∷ cs) config stream among accepted e =
      elim (Option-cases (host.build_stream device c)) [
        | inl none_built ↦ elim among [
          | inl same ↦ absurd (ground arith)
          | inr later ↦ try_configs-Among device cs config stream later accepted (ground arith)
        ]
        | inr (built, made) ↦ absurd (ground arith)
      ]

  native-Among :
      (dev : StreamConfig)
      → 1 ≤ dev.channels
      → Among (build_stream_config dev.channels default_size) (candidate_configs (some dev))
  unfolding candidate_configs both_sizes
  native-Among dev h = elim (Bool-cases (ltb 1 dev.channels)) [
    | inr few ↦
        let one : 1 ≡ dev.channels = ground arith in
        rw few (inr (inl (ap (λ n. build_stream_config n default_size) one)))
    | inl several ↦ elim (Bool-cases (dev.channels == 2)) [
      | inl stereo ↦
          let two : 2 ≡ dev.channels = ground arith in
          rw (several, stereo)
            (inr (inr (inr (inl (ap (λ n. build_stream_config n default_size) two)))))
      | inr more ↦ rw (several, more) (inr (inr (inr (inr (inr (inl refl))))))
    ]
  ]

  -- A chosen device that reports a default configuration with at least one channel, and takes that channel
  -- count at 48 kHz with a buffer of the default size, is never given up for want of a supported
  -- configuration.
  pub start_native :
      (device_name : Option (List ℕ)) (device : host.Device) (dev : StreamConfig)
      (stream : host.Stream)
      → select_device host device_name ≡ ok device
      → host.default_config device ≡ some dev
      → 1 ≤ dev.channels
      → host.build_stream device (build_stream_config dev.channels default_size) ≡ some stream
      → start host device_name ≢ err no_supported_config
  unfolding start
  start_native device_name device dev stream selected reported some_channel accepted =
      let tried : start host device_name ≡ try_configs host device (candidate_configs (some dev)) =
        ground (arith, selected, reported) in
      λ e.
        try_configs-Among device (candidate_configs (some dev)) _ stream
          (native-Among dev some_channel) accepted (sym tried ∙ e)
