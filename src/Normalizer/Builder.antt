-- ===== src/Normalizer/Builder.antt =====
-- `NormalizerServiceBuilder` of crates/normalizer/src/service.rs, which sets up the service with a
-- configuration that differs from the default one.
use wup_demo.Prelude.{String}
use wup_demo.Normalizer.{AdapterConfig, ExchangeAdapter, default_config}

pub record NormalizerServiceBuilder : Type 0 where
  pub adapter : ExchangeAdapter
  pub config : AdapterConfig

unfoldable pub new : ExchangeAdapter → NormalizerServiceBuilder
new adapter = record { adapter = adapter; config = default_config adapter }

unfoldable pub source_stream : String → NormalizerServiceBuilder → NormalizerServiceBuilder
source_stream stream b = record b { config = record (b.config) { source_stream = stream } }

unfoldable pub filter_subject : String → NormalizerServiceBuilder → NormalizerServiceBuilder
filter_subject subject b = record b { config = record (b.config) { filter_subject = subject } }

unfoldable pub dest_stream : String → NormalizerServiceBuilder → NormalizerServiceBuilder
dest_stream stream b = record b { config = record (b.config) { dest_stream = stream } }

unfoldable pub output_subject_prefix : String → NormalizerServiceBuilder → NormalizerServiceBuilder
output_subject_prefix prefix b = record b {
  config = record (b.config) { output_subject_prefix = prefix };
}

-- The service that is built, which is its adapter and its configuration.
pub record NormalizerService : Type 0 where
  pub adapter : ExchangeAdapter
  pub config : AdapterConfig

unfoldable pub build : NormalizerServiceBuilder → NormalizerService
build b = record { adapter = b.adapter; config = b.config }

unfoldable pub with_defaults : ExchangeAdapter → NormalizerService
with_defaults adapter = record { adapter = adapter; config = default_config adapter }
