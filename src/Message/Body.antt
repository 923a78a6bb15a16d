-- ===== src/Message/Body.antt =====
-- imap-types/src/body.rs
use imap_codec.Prelude.{ℕ, List, Option}
use imap_codec.Core.IString.{IString}
use imap_codec.Core.NString.{NString}
use imap_codec.Message.Envelope.{Envelope}

abbrev pub Parameters : Type 0
Parameters = List (IString × IString)

pub record BasicFields : Type 0 where
  pub parameter_list : Parameters
  pub id : NString
  pub description : NString
  pub content_transfer_encoding : IString
  pub size : ℕ

-- `BodyExtensions` stands for lists of extensions.
mutual
  pub data BodyExtension : Type 0 where
    nstring : NString → BodyExtension
    number : ℕ → BodyExtension
    list : BodyExtensions → BodyExtension

  pub data BodyExtensions : Type 0 where
    nil : BodyExtensions
    cons : BodyExtension → BodyExtensions → BodyExtensions

pub record Location : Type 0 where
  pub location : NString
  pub extensions : BodyExtensions

pub record Language : Type 0 where
  pub language : List IString
  pub tail : Option Location

pub record Disposition : Type 0 where
  pub disposition : Option (IString × Parameters)
  pub tail : Option Language

pub record SinglePartExtensionData : Type 0 where
  pub md5 : NString
  pub tail : Option Disposition

pub record MultiPartExtensionData : Type 0 where
  pub parameter_list : Parameters
  pub tail : Option Disposition

-- `BodyStructures` stands for `Vec1<BodyStructure>`, and a `Body` is its fields.
mutual
  pub data BodyStructure : Type 0 where
    single : BasicFields → SpecificFields → Option SinglePartExtensionData → BodyStructure
    multi : BodyStructures → IString → Option MultiPartExtensionData → BodyStructure

  pub data SpecificFields : Type 0 where
    basic : (type_name subtype : IString) → SpecificFields
    message : Envelope → BodyStructure → (number_of_lines : ℕ) → SpecificFields
    text : (subtype : IString) (number_of_lines : ℕ) → SpecificFields

  pub data BodyStructures : Type 0 where
    nil : BodyStructures
    cons : BodyStructure → BodyStructures → BodyStructures
